-- ===== src/Outbox/Examples.antt =====
-- Three rows, one of them with an event that the registry refuses.
use holon.Prelude.{ℕ, ◌≡◌, refl, true, not, none, some, [], ◌∷◌, take, arith, ◌==◌}
use holon.Outbox.{Bus, Relay, unpublished, relay_once}
use holon.Outbox.Order.{Pass, relay_once-Pass}
use holon.Outbox.Delivery.{relay_once-unpublished}

abbrev bus : Bus ℕ ℕ
bus = record {
  decode = λ j. some j;
  is_registered = λ e. not (e == 7);
  accepts = λ log e. true;
  quarantines = λ e. true;
}

abbrev relay : Relay ℕ ℕ
relay = record {
  rows =
      record { id = 1; envelope = 5; published_at = some 3 }
      ∷ record { id = 2; envelope = 7; published_at = none }
      ∷ record { id = 3; envelope = 9; published_at = none }
      ∷ [];
  sent = [];
  quarantined = [];
  now = 10;
}

relay_once-Pass_example : Pass bus (take 50 (unpublished relay.rows)) relay (relay_once bus relay)
relay_once-Pass_example = relay_once-Pass bus relay

relay_once-unpublished_example : unpublished (relay_once bus relay).rows ≡ []
unfolding unpublished
relay_once-unpublished_example =
    relay_once-unpublished bus relay (λ j e. absurd (cc)) (λ log e. refl) (omega arith)
