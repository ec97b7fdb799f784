-- ===== src/Clock/Examples.antt =====
-- cpp/include/row_clock.hpp: a concrete lag.
use t2s.Base.{refl, List, [], ◌∷◌}
use t2s.Clock.{new_clock, default_clock_lag_ms, stamp_row_time}
use t2s.Clock.Stamp.{IsStamped, stamp_row_time-IsStamped}
use t2s.Clock.Episodes.{Act, noted, stamped, Seen, run, IsAccounted, run-IsAccounted}

-- Two rows 5 s behind the exchange, and one in step.
abbrev acts : List Act
acts =
    noted 100000
    ∷ stamped 95000000000 100000
    ∷ stamped 95100000000 100100
    ∷ stamped 100300000000 100200
    ∷ []

abbrev nothing_seen : Seen
nothing_seen = record { corrected = 0; reported = 0; started = 0; ended = 0 }

fresh-IsAccounted : IsAccounted (new_clock default_clock_lag_ms) nothing_seen
unfolding new_clock
fresh-IsAccounted = record { rows = refl; split = refl; edges = refl; idle = λ e. refl }

run-IsAccounted_example :
    let out = run acts (new_clock default_clock_lag_ms) nothing_seen in IsAccounted out.0 out.1
run-IsAccounted_example =
    run-IsAccounted acts (new_clock default_clock_lag_ms) nothing_seen fresh-IsAccounted

stamp_row_time-IsStamped_example :
    IsStamped 95000000000 100000 2000 (stamp_row_time 95000000000 100000 2000)
stamp_row_time-IsStamped_example = stamp_row_time-IsStamped 95000000000 100000 2000
