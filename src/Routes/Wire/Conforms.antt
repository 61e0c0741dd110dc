-- ===== src/Routes/Wire/Conforms.antt =====
-- The replies of the API against the schemas of api/src/contract/schemas.ts.
use battle_cloud.Common.{
  ℕ, ◌≡◌, refl, Bool, true, false, ◌&&◌, List, [], ◌∷◌, map, Option, none, some, Text, text,
  text_eq, arith,
}
use battle_cloud.Json
use battle_cloud.Json.{Json}
use battle_cloud.Platform.{Platform}
use battle_cloud.Contract.Identity.{p1, p2, Perspective}
use battle_cloud.Contract.Key.{perspective_text}
use battle_cloud.Contract.Checks.{every, nullable, string, int, enum}
use battle_cloud.Contract.Documents.{
  perspectives, document_schema, job_schema, analysis_envelope_schema, analysis_summary_schema,
  analysis_page_schema,
}
use battle_cloud.Store.Replays.{Rating, natural, negative}
use battle_cloud.Store.Analyses.{AnalysisSummary}
use battle_cloud.Routes.{Envelope, JobView, job, submitted, page, analysis}
use battle_cloud.Routes.Wire.{or_null, rating_json, summary_json, body_json, envelope_json}

or_null-int : (n : Option ℕ) → nullable int (some (or_null Json.num n)) ≡ true
or_null-int none = refl
or_null-int (some n) = refl

or_null-rating : (r : Option Rating) → nullable int (some (or_null rating_json r)) ≡ true
or_null-rating none = refl
or_null-rating (some (natural n)) = refl
or_null-rating (some (negative t)) = refl

or_null-string : (s : Option Text) → nullable string (some (or_null Json.str s)) ≡ true
or_null-string none = refl
or_null-string (some s) = refl

every-string : (names : List Text) → every string (Json.array (map Json.str names)) ≡ true
every-string [] = refl
every-string (name ∷ names) = every-string names

perspective_known :
    (p : Perspective) → enum perspectives (some (Json.str (perspective_text p))) ≡ true
unfolding perspective_text text text_eq
perspective_known p1 = refl
perspective_known p2 = refl

and_false : (b : Bool) → b && false ≡ false
and_false b = ground arith

and_true : (b : Bool) → b && true && true ≡ b
and_true b = ground arith

module _ (p : Platform) where
  summary_conforms :
      (s : AnalysisSummary) → analysis_summary_schema (some (summary_json p s)) ≡ true
  unfolding analysis_summary_schema summary_json Json.get text text_eq
  summary_conforms s =
      rw (or_null-rating s.rating, every-string s.players, perspective_known s.perspective) refl

  summaries_conform :
      (rows : List AnalysisSummary)
      → every analysis_summary_schema (Json.array (map (summary_json p) rows)) ≡ true
  summaries_conform [] = refl
  summaries_conform (s ∷ rows) = rw (summary_conforms s) (summaries_conform rows)

  -- Every page that the list sends is accepted by its strict schema.
  pub page_conforms :
      (rows : List AnalysisSummary) (next : Option Text)
      → analysis_page_schema (some (body_json p (page rows next))) ≡ true
  unfolding analysis_page_schema body_json Json.get text text_eq
  page_conforms rows next = rw (summaries_conform rows, or_null-string next) refl

  -- An analysis that the API sends is accepted by the schema of the envelope exactly when its
  -- document is accepted by the schema of the document: the envelope adds no fault of its own.
  pub envelope_conforms :
      (e : Envelope)
      → analysis_envelope_schema (some (body_json p (analysis e)))
        ≡ document_schema (some e.document)
  unfolding analysis_envelope_schema body_json envelope_json Json.get text text_eq
  envelope_conforms e = and_true (document_schema (some e.document))

  -- No job that the API sends, for a poll or for a submission, is accepted by the schema of a job.
  pub job_refused :
      (view : JobView) (created : Bool)
      → (job_schema (some (body_json p (job view))) ≡ false)
        × (job_schema (some (body_json p (submitted view created))) ≡ false)
  unfolding job_schema body_json Json.get text text_eq
  job_refused view created = (and_false _, and_false _)
