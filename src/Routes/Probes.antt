-- ===== src/Routes/Probes.antt =====
-- The probes and the preflight answers of api/src/routes.ts.
use battle_cloud.Common.{
  ℕ, ◌≡◌, arith, true, false, [], ◌∷◌, Option, none, some, Text, text, text_eq,
}
use battle_cloud.Json
use battle_cloud.Json.{Json}
use battle_cloud.Contract.Errors.{ErrorKind}
use battle_cloud.Routes.Wire.{kind_text}

pub record Probe : Type 0 where
  pub status : ℕ
  pub body : Option Json

abbrev pub is_well : Json
is_well = Json.obj (Json.object ((text "ok", Json.bool true) ∷ []))

-- `GET /healthz`
unfoldable pub healthz : Probe
healthz = record { status = 200; body = some is_well }

-- `GET /readyz`, with the failure of `ping` as `String(cause)`.
unfoldable pub readyz : Option Text → Probe
readyz none = record { status = 200; body = some is_well }
readyz (some cause) = record {
  status = 503;
  body = some (
      Json.obj (
        Json.object (
          (
            text "error",
            Json.obj (
                Json.object (
                  (text "kind", Json.str (text "unavailable"))
                  ∷ (text "message", Json.str cause)
                  ∷ [])),
          )
          ∷ [])));
}

-- `OPTIONS`
unfoldable pub preflight : Probe
preflight = record { status = 204; body = none }

-- The kind that a failed readiness probe sends is no kind of the vocabulary.
unavailable_unknown : (kind : ErrorKind) → text_eq (kind_text kind) (text "unavailable") ≡ false
unfolding kind_text text text_eq
unavailable_unknown kind = ground arith
