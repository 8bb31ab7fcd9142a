-- ===== src/Publisher/Runs/Starts.antt =====
-- client/dcs_copilot/telemetry/publisher.py: the start of an epoch keeps the bounds, however far it gets.
use dcs_copilot.Prelude.{
  ℕ, ◌+◌, String, ◌≡◌, refl, inl, inr, Bool, true, false, not, Option, none, some, List, [], ◌∷◌,
  ◌++◌, map, arith, Bool-cases, length,
}
use dcs_copilot.Protocol.Telemetry.{ControlIdentity, CatalogEntry, DecodedValue, identity_eq}
use dcs_copilot.Ingress.{Message}
use dcs_copilot.Publisher.{
  ControlDefinition, at_least_one, chunks, Client, TelemetryPublisher, reset, is_some,
}
use dcs_copilot.Publisher.Start.{
  snapshot_messages, catalog_messages, catalog_of, append_all, append_snapshot, after_catalog,
  append_catalog, open_epoch, begin_for, begin_epoch, set_session_active,
}
use dcs_copilot.Ingress.Payload.{message_fits}
use dcs_copilot.Prelude.Map.{Map, values}
use dcs_copilot.Publisher.Bounds.{Bounded, unless}

pub reset-Bounded : (p : TelemetryPublisher) → Bounded p → Bounded (reset p)
unfolding reset
reset-Bounded p b = record {
  switches = b.switches;
  controls = omega arith;
  queues = tt;
  outside = λ e. (refl, refl, refl);
  inactive = λ e. refl;
}

-- A publisher in an epoch of a session.
pub record InEpoch (p : TelemetryPublisher) : Type 0 where
  pub bounded : Bounded p
  pub in_epoch : is_some p.epoch ≡ true
  pub in_session : p.session_active ≡ true

-- What may change of it while an epoch opens.
InEpoch-step :
    (p : TelemetryPublisher) (l : List Message) (n : ℕ) (c : Map ControlIdentity CatalogEntry)
    (modules : List String)
    → InEpoch p
    → InEpoch (record p { initial = l; next_sequence = n; catalog = c; active_modules = modules })
InEpoch-step p l n c modules i = record {
  bounded = record {
    switches = i.bounded.switches;
    controls = i.bounded.controls;
    queues = i.bounded.queues;
    outside = λ e. absurd (ground (arith, e, i.in_epoch));
    inactive = i.bounded.inactive;
  };
  in_epoch = i.in_epoch;
  in_session = i.in_session;
}

append_all-InEpoch :
    (uuid : String → Bool) (ms : List Message) (p : TelemetryPublisher)
    → InEpoch p
    → InEpoch (append_all uuid ms p).1
unfolding append_all
append_all-InEpoch uuid [] p i = i
append_all-InEpoch uuid (m ∷ ms) p i = elim (Bool-cases (message_fits uuid m)) [
  | inl e ↦
      rw (append_all, e)
        (append_all-InEpoch uuid ms _
          (InEpoch-step p (p.initial ++ m ∷ []) (p.next_sequence + 1) p.catalog p.active_modules i))
  | inr e ↦
      rw (append_all, e)
        (InEpoch-step p p.initial (p.next_sequence + 1) p.catalog p.active_modules i)
]

module _ (uuid : String → Bool) (first_256 : String → String) where
  append_snapshot-InEpoch :
      (epoch aircraft : String) (o : Option (List DecodedValue)) (p : TelemetryPublisher)
      → InEpoch p
      → InEpoch (append_snapshot uuid first_256 epoch aircraft o p).1
  unfolding append_snapshot
  append_snapshot-InEpoch epoch aircraft none p i = i
  append_snapshot-InEpoch epoch aircraft (some sent) p i =
      let contents = at_least_one (chunks sent 1024) in
      append_all-InEpoch uuid
        (snapshot_messages epoch aircraft (length contents) 0 p.next_sequence contents) p i

  after_catalog-InEpoch :
      (client : Client) (epoch aircraft : String) (r : Bool × TelemetryPublisher)
      → InEpoch r.1
      → InEpoch (after_catalog uuid first_256 client epoch aircraft r).1
  unfolding after_catalog
  after_catalog-InEpoch client epoch aircraft (false, p) i = i
  after_catalog-InEpoch client epoch aircraft (true, p) i =
      append_snapshot-InEpoch epoch aircraft _ p i

  append_catalog-InEpoch :
      (client : Client) (epoch aircraft : String) (o : Option (Map ControlIdentity CatalogEntry))
      (p : TelemetryPublisher)
      → InEpoch p
      → InEpoch (append_catalog uuid first_256 client epoch aircraft o p).1
  unfolding append_catalog
  append_catalog-InEpoch client epoch aircraft none p i = i
  append_catalog-InEpoch client epoch aircraft (some catalog) p i =
      let entries = at_least_one (chunks (values catalog) 256) in
      let ms = catalog_messages epoch aircraft (length entries) 0 p.next_sequence entries in
      let modules = map (λ (d : ControlDefinition). d.module_name) client.active_definitions in
      let q = record p { catalog = catalog; active_modules = modules } in
      after_catalog-InEpoch client epoch aircraft (append_all uuid ms q)
        (append_all-InEpoch uuid ms q (InEpoch-step p p.initial p.next_sequence catalog modules i))

  open_epoch-Bounded :
      (client : Client) (epoch : String) (now : ℕ) (aircraft : String) (p : TelemetryPublisher)
      → p.session_active ≡ true
      → Bounded p
      → Bounded (open_epoch uuid first_256 client epoch now aircraft p).1
  unfolding open_epoch
  open_epoch-Bounded client epoch now aircraft p a b =
      (append_catalog-InEpoch client epoch aircraft
        (catalog_of uuid first_256 client.active_definitions []) _
        (record {
          bounded = record {
            switches = b.switches;
            controls = b.controls;
            queues = b.queues;
            outside = λ e. absurd (ground (arith, e));
            inactive = λ e. absurd (ground (arith, e, a));
          };
          in_epoch = refl;
          in_session = a;
        })).bounded

  begin_for-Bounded :
      (client : Client) (epoch : String) (now : ℕ) (aircraft : Option String)
      (p : TelemetryPublisher)
      → p.session_active ≡ true
      → Bounded p
      → Bounded (begin_for uuid first_256 client epoch now aircraft p).1
  unfolding begin_for
  begin_for-Bounded client epoch now none p a b = b
  begin_for-Bounded client epoch now (some aircraft) p a b =
      open_epoch-Bounded client epoch now aircraft p a b

  pub begin_epoch-Bounded :
      (client : Client) (epoch : String) (now : ℕ) (aircraft : Option String)
      (p : TelemetryPublisher)
      → Bounded p
      → Bounded (begin_epoch uuid first_256 client epoch now aircraft p).1
  unfolding begin_epoch
  begin_epoch-Bounded client epoch now aircraft p b =
      unless (not (reset p).session_active) (true, reset p) _ (reset-Bounded p b)
        λ h.
          begin_for-Bounded client epoch now aircraft (reset p) (ground (arith, h))
            (reset-Bounded p b)

  pub set_session_active-Bounded :
      (client : Client) (epoch : String) (now : ℕ) (active : Bool) (p : TelemetryPublisher)
      → Bounded p
      → Bounded (set_session_active uuid first_256 client epoch now active p).1
  unfolding set_session_active reset
  set_session_active-Bounded client epoch now true p b =
      begin_epoch-Bounded client epoch now client.current_aircraft
        (record p { session_active = true })
        (record {
          switches = b.switches;
          controls = b.controls;
          queues = b.queues;
          outside = b.outside;
          inactive = λ e. absurd (ground (arith, e));
        })
  set_session_active-Bounded client epoch now false p b = record {
    switches = b.switches;
    controls = omega arith;
    queues = tt;
    outside = λ e. (refl, refl, refl);
    inactive = λ e. refl;
  }
