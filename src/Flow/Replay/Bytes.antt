-- ===== src/Flow/Replay/Bytes.antt =====
-- What a client gets back of an answer that was stored.
use stask_service.Prelude.{Text, codes, Bool, true, false, Option, none, some, [], ◌∷◌}

-- the body of an answer as it is replayed: `changed` is what JSON code made of it, if it could
abbrev pub shown : Bool → Option Text → Text → Text
shown false changed raw = raw
shown true none raw = raw
shown true (some s) raw = s

-- the content type that an answer without one gets
abbrev pub typed : Text → Text
typed [] = codes "application/json"
typed (c ∷ s) = c ∷ s
