-- ===== src/Server/Logging/Tests.antt =====
-- The theorem on redaction at a concrete log detail.
use rotoweave.Base.{◌≡◌}
use rotoweave.Server.Logging.{Json, end, field, text, object, redact}
use rotoweave.Server.Logging.Redaction.{IsClean, IsRedaction, redact_lem}

abbrev detail : Json
detail = object (field "Token" (text "abc") (field "note" (text "ok") end))

redact_lem_example :
    IsRedaction detail (redact detail)
    × IsClean (redact detail)
    × (IsClean detail → redact detail ≡ detail)
redact_lem_example = redact_lem detail
