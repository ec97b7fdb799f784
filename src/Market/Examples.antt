-- ===== src/Market/Examples.antt =====
-- cpp/include/market_config.hpp: the paths of its comment, and the futures handler's.
use t2s.Base.{[], ◌∷◌, ◌≡◌, refl, join}
use t2s.Market.{build_stream_path, build_depth_stream_path, default_quote_market}

two_symbols :
    build_stream_path ("btcusdt" ∷ "ethusdt" ∷ []) "@trade"
    ≡ "/stream?streams=btcusdt@trade/ethusdt@trade"
unfolding build_stream_path join
two_symbols = refl

no_symbol : build_stream_path [] "@trade" ≡ "/stream?streams="
unfolding build_stream_path join
no_symbol = refl

futures_depth :
    build_depth_stream_path
      (record default_quote_market { ws_path_prefix = "/public" })
      ("btcusdt" ∷ [])
    ≡ "/public/stream?streams=btcusdt@depth@100ms"
unfolding build_depth_stream_path build_stream_path join
futures_depth = refl
