-- ===== src/Ingress/Payload.antt =====
-- shared/dcs_copilot_protocol/telemetry.py, as cloud/dcs_copilot_cloud/telemetry.py calls it: what
-- `from_control` refuses before the ingress looks at a message. The fields of the dictionaries and
-- the types of their values are not modelled; the size of the encoded payload is a parameter.
use dcs_copilot.Prelude.{ℕ, String, Bool, true, ◌&&◌, Option, ltb, if◌then◌else◌, all_of}
use dcs_copilot.Protocol.Telemetry.{CatalogEntry, DecodedValue}
use dcs_copilot.Protocol.Checks.{
  identity_fits, entry_fits, value_fits, catalog_fits, snapshot_fits, delta_fits,
}
use dcs_copilot.Ingress.{
  Message, catalog_message, snapshot_message, delta_message, malformed, other, accept, Method,
  TelemetryBatch,
}

-- 256 KiB
abbrev pub max_payload_bytes : ℕ
max_payload_bytes = 262144

unfoldable pub entry_read : CatalogEntry → Bool
unfolding identity_fits entry_fits
entry_read e = identity_fits e.identity && entry_fits e

unfoldable pub value_read : DecodedValue → Bool
unfolding identity_fits value_fits
value_read v = identity_fits v.identity && value_fits v

-- Whether `from_dict` reads each of the entries or values.
unfoldable pub parts_read : Message → Bool
unfolding entry_read value_read
parts_read (catalog_message m) = all_of entry_read m.entries
parts_read (snapshot_message m) = all_of value_read m.contents
parts_read (delta_message m) = all_of value_read m.contents
parts_read m = true

module _ (uuid : String → Bool) where
  -- What the constructor of the message accepts.
  unfoldable pub message_fits : Message → Bool
  unfolding catalog_fits snapshot_fits delta_fits
  message_fits (catalog_message m) = catalog_fits uuid m
  message_fits (snapshot_message m) = snapshot_fits uuid m
  message_fits (delta_message m) = delta_fits uuid m
  message_fits m = true

  -- `payload_size` is the length of the JSON of the payload in bytes.
  module _ (payload_size : Message → ℕ) where
    -- `_enforce_payload_size`, the entries or values, and the constructor.
    unfoldable pub from_control : Message → Message
    unfolding message_fits parts_read
    from_control other = other
    from_control m =
        if ltb max_payload_bytes (payload_size m)
        then malformed
        else if parts_read m && message_fits m
        then m
        else malformed

    -- What the ingress does with a message that arrives.
    unfoldable pub receive : Message → Method (Option TelemetryBatch)
    unfolding from_control accept
    receive m s = accept (from_control m) s
