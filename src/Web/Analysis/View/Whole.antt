-- ===== src/Web/Analysis/View/Whole.antt =====
-- When the analysis view shows a page.
use battle_cloud.Common.{
  ◌≡◌, refl, ap, subst, ◌∙◌, Bool, true, false, not, ◌&&◌, ◌||◌, none, some, text, arith,
}
use battle_cloud.Json
use battle_cloud.Json.{Json, Items, Fields}
use battle_cloud.Contract.Checks.{int, finite, string, enum, nullable, optional, every, array}
use battle_cloud.Contract.Documents.{
  turn_evaluation_schema, engine_configuration_schema, document_schema, is_supported, version_of,
  analysis_envelope_schema, perspectives,
}
use battle_cloud.Web.Analysis.{◌>>=◌, Numbers, read, is_null, child}
use battle_cloud.Web.Analysis.View.{
  View, charted, charted_items, selected_turn, engine_shown, header_shown, rating_pill,
  players_heading, document_page, page_or, page_of, render, table_if, detail_of,
}
use battle_cloud.Web.Analysis.View.Accepted.{
  is_shown, is_shown-bind, is_shown-bind_all, is_shown-both, both, int-is_shown, string-is_shown,
  all_costs,
}
use battle_cloud.Web.Analysis.View.Costs.{
  chosen_cost, is_shown-charted_items, is_shown-selected_turn, is_shown-through, selected_detail,
  is_shown-table_if, is_shown-engine_shown, is_shown-rating_pill, is_shown-players_heading,
  is_shown-child_perspective,
}

-- What the schema asks of a document but for its turns, and what the client's type says of the two
-- members that the schema passes through.
record IsDocument (fields : Fields) : Type 0 where
  replay_id : string (Json.get (text "replayId") fields) ≡ true
  format : string (Json.get (text "format") fields) ≡ true
  perspective : enum perspectives (Json.get (text "perspective") fields) ≡ true
  engine : engine_configuration_schema (Json.get (text "engine") fields) ≡ true
  total : int (Json.get (text "totalTurns") fields) ≡ true
  gradable : int (Json.get (text "gradableTurns") fields) ≡ true
  players : optional (array string) (Json.get (text "players") fields) ≡ true
  rating : optional (nullable finite) (Json.get (text "rating") fields) ≡ true

abbrev pub shows : View → Items → Bool
shows view items =
    (not view.show_table || all_costs items)
    && (is_null view.selected || chosen_cost view.selected items)

module _ (numbers : Numbers) where
  is_shown-header_shown :
      (fields : Fields)
      → IsDocument fields
      → is_shown (header_shown numbers (some (Json.obj fields))) ≡ true
  unfolding header_shown
  is_shown-header_shown fields d =
      is_shown-bind (child numbers (Json.get (text "format") fields)) _ true
        (string-is_shown numbers (Json.get (text "format") fields) d.format)
        (λ format.
          is_shown-bind (rating_pill numbers (Json.get (text "rating") fields)) _ true
            (is_shown-rating_pill numbers (Json.get (text "rating") fields) d.rating)
            (λ rating.
              is_shown-bind (child numbers (Json.get (text "perspective") fields)) _ true
                (is_shown-child_perspective numbers (Json.get (text "perspective") fields)
                  d.perspective)
                (λ perspective.
                  is_shown-bind (engine_shown numbers (Json.get (text "engine") fields)) _ true
                    (is_shown-engine_shown numbers (Json.get (text "engine") fields) d.engine)
                    (λ engine.
                      is_shown-bind (child numbers (Json.get (text "totalTurns") fields)) _ true
                        (int-is_shown numbers (Json.get (text "totalTurns") fields) d.total)
                        (λ total.
                          is_shown-bind (child numbers (Json.get (text "gradableTurns") fields)) _
                            true
                            (int-is_shown numbers (Json.get (text "gradableTurns") fields)
                              d.gradable)
                            (λ gradable. refl))))))

  -- From the choice of the turn on, with what is shown of it.
  is_shown-document_page :
      (view : View) (envelope fields : Fields) (items : Items)
      → view.envelope ≡ Json.obj envelope
      → IsDocument fields
      → every turn_evaluation_schema items ≡ true
      → is_shown (document_page numbers view (some (Json.obj fields)) (some (Json.arr items)))
        ≡ shows view items
  unfolding document_page charted
  is_shown-document_page view envelope fields items e d h =
      let replay_id = Json.get (text "replayId") fields in
      let players = Json.get (text "players") fields in
      let rows = table_if numbers view.show_table (some (Json.arr items)) in
      let shown = not view.show_table || all_costs items in
      is_shown-through (selected_turn view.selected (some (Json.arr items))) _ (detail_of numbers)
        shown (is_shown-selected_turn view.selected items h)
        (λ chosen.
          let detail = detail_of numbers chosen in
          let b = shown && is_shown detail in
          is_shown-bind (players_heading numbers players replay_id) _ b
            (is_shown-players_heading numbers players replay_id d.players d.replay_id)
            (λ heading.
              is_shown-bind (header_shown numbers (some (Json.obj fields))) _ b
                (is_shown-header_shown fields d)
                (λ header.
                  is_shown-bind (read (text "createdAt") (some view.envelope)) _ b (rw e refl)
                    (λ created_at.
                      is_shown-bind (charted_items items) _ b (is_shown-charted_items items h)
                        (λ seen.
                          is_shown-both rows detail _
                          ∙ ap (λ c. c && is_shown detail)
                              (is_shown-table_if numbers view.show_table items h))))))
      ∙ ap (λ b. shown && b) (selected_detail numbers view.selected items h)

  is_shown-page_of :
      (view : View) (envelope fields : Fields) (items : Items)
      → view.envelope ≡ Json.obj envelope
      → Json.get (text "document") envelope ≡ some (Json.obj fields)
      → Json.get (text "turns") fields ≡ some (Json.arr items)
      → IsDocument fields
      → every turn_evaluation_schema items ≡ true
      → is_shown (page_of numbers view) ≡ shows view items
  unfolding page_of
  is_shown-page_of view envelope fields items e there turns d h =
      let read_document : read (text "document") (some view.envelope)
          ≡ some (some (Json.obj fields)) =
        rw (e, there) refl in
      ap
        (λ v.
          is_shown (v >>= λ doc. read (text "turns") doc >>= λ t. document_page numbers view doc t))
        read_document
      ∙ ap (λ t. is_shown (document_page numbers view (some (Json.obj fields)) t)) turns
      ∙ is_shown-document_page view envelope fields items e d h

-- A reply of the API that the schema of an envelope accepts, with the members of its document that
-- the schema passes through as the client's types say: the turns of the document.
pub record IsServed (envelope : Json) (items : Items) : Type 0 where
  pub members : Fields
  pub fields : Fields
  pub is_object : envelope ≡ Json.obj members
  pub document : Json.get (text "document") members ≡ some (Json.obj fields)
  pub turns : Json.get (text "turns") fields ≡ some (Json.arr items)
  pub accepted : analysis_envelope_schema (some envelope) ≡ true
  pub players : optional (array string) (Json.get (text "players") fields) ≡ true
  pub rating : optional (nullable finite) (Json.get (text "rating") fields) ≡ true

fourth : (a b c d e : Bool) → ((a && (b && (c && (d && true)))) && e) ≡ true → d ≡ true
fourth a b c d e h = ground arith

envelope_document :
    (members : Fields)
    → analysis_envelope_schema (some (Json.obj members)) ≡ true
    → document_schema (Json.get (text "document") members) ≡ true
unfolding analysis_envelope_schema
envelope_document members h =
    fourth (string (Json.get (text "analysisId") members)) (int (Json.get (text "seed") members))
      (string (Json.get (text "createdAt") members))
      (document_schema (Json.get (text "document") members)) _ h

served_document :
    (envelope : Json) (items : Items) (served : IsServed envelope items)
    → document_schema (some (Json.obj served.fields)) ≡ true
served_document envelope items served =
    subst (λ document. document_schema document ≡ true) served.document
      (envelope_document served.members (
        subst (λ json. analysis_envelope_schema (some json) ≡ true) served.is_object
          served.accepted))

served_parts :
    (fields : Fields) (items : Items)
    → document_schema (some (Json.obj fields)) ≡ true
    → Json.get (text "turns") fields ≡ some (Json.arr items)
    → optional (array string) (Json.get (text "players") fields) ≡ true
    → optional (nullable finite) (Json.get (text "rating") fields) ≡ true
    → IsDocument fields × (every turn_evaluation_schema items ≡ true)
unfolding document_schema
served_parts fields items h turns players rating =
    let (replay_id, h2) =
      both _ _ (both _ (is_supported (version_of (some (Json.obj fields)))) h).0 in
    let (format, h3) = both _ _ h2 in
    let (perspective, h4) = both _ _ h3 in
    let (engine, h5) = both _ _ h4 in
    let (total, h6) = both _ _ h5 in
    let (gradable, h7) = both _ _ h6 in
    (
      record {
        replay_id = replay_id;
        format = format;
        perspective = perspective;
        engine = engine;
        total = total;
        gradable = gradable;
        players = players;
        rating = rating;
      },
      subst (λ t. array turn_evaluation_schema t ≡ true) turns (both _ true h7).0,
    )

-- For a view that got an envelope which the API's schema accepts, with the members that the schema
-- passes through as the client's types say: the page is rendered exactly when the turn that is
-- selected and, while the table is open, every turn has the key `costOfPlayed`; the schema lets it be
-- absent, and then the rendering throws.
pub is_shown-render :
    (numbers : Numbers) (view : View) (items : Items)
    → view.error ≡ none
    → IsServed view.envelope items
    → is_shown (render numbers view) ≡ shows view items
unfolding render
is_shown-render numbers view items quiet served =
    let (d, h) =
      served_parts served.fields items (served_document view.envelope items served) served.turns
        served.players served.rating in
    let there : is_null (some view.envelope) ≡ false =
      ap (λ json. is_null (some json)) served.is_object in
    ap (λ m. is_shown (page_or numbers m view)) quiet
    ∙ rw there (
        is_shown-bind_all (page_of numbers view) _ (shows view items)
          (is_shown-page_of numbers view served.members served.fields items served.is_object
            served.document served.turns d h)
          (λ p. refl))
