-- ===== src/Publisher/Delivery/Steady.antt =====
-- cpp/include/tp_publisher.hpp and kdb/tick/tp.q: a link on which nothing goes wrong.
use t2s.Base.{
  ◌+◌, Bool, true, false, none, List, [], ◌∷◌, ◌++◌, not, if◌then◌else◌, ◌≡◌, refl, ap, if_cases,
  arith,
}
use t2s.Publisher.{push, new_ring, register, resend}
use t2s.Publisher.Delivery.{
  Link, Contact, Event, publish_row, published, publish_next, step, reconnect, run, new_link,
  settled, asked, attempt_of, written,
}
use t2s.Publisher.Delivery.Healthy.{healthy_contact}
use t2s.Tickerplant.{Tickerplant, register_session, recognised}

unfoldable pub publish_all : {R : Type 0} → List R → List (Event R)
publish_all [] = []
publish_all (row ∷ rows) = publish_row row false [] ∷ publish_all rows

-- A contact with nothing to resend.
abbrev pub first_contact : List Contact
first_contact = healthy_contact 0 ∷ []

module _ {R : Type 0} where
  pub published-publish_all : (rows : List R) → published (publish_all rows) ≡ rows
  unfolding published publish_all
  published-publish_all [] = refl
  published-publish_all (row ∷ rows) = ap (λ rs. row ∷ rs) (published-publish_all rows)

  -- The connection works and nothing is counted as unresendable.
  unfoldable pub IsSteady : Link R → Type 0
  IsSteady l = (l.alive ≡ true) × (l.handler.connected ≡ true) × (l.handler.rows_unresendable ≡ 0)

  publish_next-IsSteady :
      (row : R) (l : Link R) → IsSteady l → IsSteady (publish_next row false [] l).0
  unfolding publish_next IsSteady
  publish_next-IsSteady row l (on, connected, none_gone) =
      let p = l.handler in
      let seq = l.fh_seq_no + 1 in
      let q = record p { ring = push seq row p.ring } in
      let pushed = record l { fh_seq_no = seq; handler = q } in
      let went = record q { wire = q.wire ++ ((seq, row) ∷ []) } in
      let sent = record pushed { handler = went; pipe = l.pipe ++ ((seq, row) ∷ []) } in
      let dead = record pushed {
        handler = record q { connected = false; reconnects = q.reconnects + 1 };
        alive = false;
        pipe = [];
      } in
      let open_ = if l.alive then (sent, true) else reconnect [] dead in
      let S : Link R × Bool → Type 0 = λ r. IsSteady r.0 in
      if_cases S (not p.connected) (reconnect [] pushed) open_
        (λ e. absurd (ground (arith, e, connected)))
        (λ e.
          if_cases S l.alive (sent, true) (reconnect [] dead) (λ f. (on, connected, none_gone))
            (λ f. absurd (ground (arith, f, on))))

  pub publish_all-IsSteady :
      (rows : List R) (l : Link R) → IsSteady l → IsSteady (run (publish_all rows) l)
  unfolding run step publish_all
  publish_all-IsSteady [] l s = s
  publish_all-IsSteady (row ∷ rows) l s =
      publish_all-IsSteady rows (publish_next row false [] l).0 (publish_next-IsSteady row l s)

-- A tickerplant that has seen nothing.
abbrev pub quiet_plant : {R : Type 0} → Tickerplant R
quiet_plant = record {
  width = 12;
  session = none;
  last = none;
  saved_last = none;
  restarts = 0;
  reconnects = 0;
  gaps = 0;
  missed = 0;
  out_of_order = 0;
  schema_mismatch = 0;
  rejected_registrations = 0;
  log = [];
}

pub first_contact-IsSteady :
    (R : Type 0)
    → let first : Link R × Bool =
        reconnect first_contact (new_link 4096 7 12 (quiet_plant {R = R})) in
      (first.1 ≡ true) × IsSteady first.0
unfolding IsSteady new_link new_ring reconnect settled asked attempt_of written register resend
    register_session recognised healthy_contact
first_contact-IsSteady R = (refl, (refl, refl, refl))
