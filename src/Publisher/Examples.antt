-- ===== src/Publisher/Examples.antt =====
-- cpp/include/tp_publisher.hpp: a concrete handler that finds its connection dead.
use t2s.Base.{ℕ, true, false, some, none, List, [], ◌∷◌, ◌≡◌, refl, arith}
use t2s.Publisher.{
  ResendRing, Publisher, Attempt, lost, replied, push, drop_oldest, publish, connect, register,
  concluded, resend, resend_after, send_rows, after, missing_after, newest_of,
}
use t2s.Publisher.Ring.{seqs, IsRing}

abbrev ring : ResendRing ℕ
ring = record { capacity = 2; rows = (3, 30) ∷ (4, 40) ∷ [] }

ring-IsRing : IsRing 3 5 ring
unfolding seqs
ring-IsRing = record { room = omega arith; bounded = omega arith; run = refl; ends = refl }

abbrev handler : Publisher ℕ
handler = record {
  running = true;
  ring = ring;
  connected = true;
  fatal_error = none;
  reconnects = 0;
  rows_resent = 0;
  rows_unresendable = 0;
  last_reply = none;
  wire = [];
}

-- The first port is closed, the second connection is lost again, and the third stands; TP has logged up to 3.
abbrev attempts : List Attempt
attempts =
    record { opened = false; registration = lost; sends = [] }
    ∷ record { opened = true; registration = replied (some 3); sends = false ∷ [] }
    ∷ record { opened = true; registration = replied (some 3); sends = true ∷ true ∷ [] }
    ∷ []

connects : (connect attempts handler).1 ≡ true
unfolding connect register concluded resend resend_after send_rows after missing_after newest_of
connects = refl

delivers : (publish 50 5 false attempts handler).1 ≡ true
unfolding publish push drop_oldest connect register concluded resend resend_after send_rows after
    missing_after newest_of
delivers = refl
