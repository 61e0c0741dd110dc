-- ===== src/Routes/Listing/Walk/Pages.antt =====
-- A client that follows the cursors sees every analysis once, in order.
use battle_cloud.Common.{
  ℕ, zero, suc, ◌≤◌, ◌<◌, ◌≡◌, refl, sym, subst, ap, ◌∙◌, true, false, List, [], ◌∷◌, ◌++◌, map,
  Option, none, some, arith, length, length-append, take, filter, ltb, All, Bool-cases, inl, inr,
  Text,
}
use battle_cloud.Platform.{Platform, IsDated, IsLawful}
use battle_cloud.Contract.Schemas.{success}
use battle_cloud.Store.Jobs.{to_ms}
use battle_cloud.Store.Cursor.{encode_cursor, decode_cursor-encode_cursor, is_uuid_text}
use battle_cloud.Store.Analyses.{
  AnalysisSummary, Joined, Position, to_summary, join_replays, newest_first, is_after,
  recent_analyses,
}
use battle_cloud.Store.Analyses.Order.{
  shown_position, IsDistinct, IsDescending, All-newest_first, newest_first-IsDescending,
}
use battle_cloud.Store.Analyses.Cut.{IsApart, IsSeparated, newest_first-filter, filter_cut, All-at}
use battle_cloud.Routes.{sent, page, Api}
use battle_cloud.Routes.Listing.{
  last, next_cursor, page_at, page_from, page_behind, position_of_cursor, list_analyses, walk,
}
use battle_cloud.Routes.Listing.Paged.{IsPaged, walk-IsPaged}
use battle_cloud.Routes.Listing.Walk.{
  take-map-take, ltb-take, take_all, IsSplit-page, last_map, map-append, append_assoc,
}

All-behind :
    (P : Joined → Type 0) (above : List Joined) (b : Joined) (below : List Joined)
    → All P (above ++ b ∷ below)
    → All P below
All-behind P [] b below h = h.1
All-behind P (a ∷ above) b below h = All-behind P above b below h.1

module _ (p : Platform) (lawful : IsLawful p) where
  -- A moment before the year 10000, and an id as the database has it.
  abbrev pub IsKeyed : Joined → Type 0
  IsKeyed x =
      IsDated (to_ms x.0.created_at) × (is_uuid_text x.0.id ≡ true) × (p.uuid x.0.id ≡ some x.0.id)

  -- What a row's cursor is read back as.
  pub cursor_of : Joined → Text
  cursor_of c =
      encode_cursor p (record { created_at = p.to_iso_string (to_ms c.0.created_at); id = c.0.id })

  pub cursor_of-read :
      (c : Joined) (limit : ℕ) (api : Api)
      → IsKeyed c
      → list_analyses p (success (record { limit = limit; cursor = some (cursor_of c) })) api
        ≡ page_at p limit (some (shown_position c)) api
  unfolding cursor_of list_analyses page_behind page_from position_of_cursor
  cursor_of-read c limit api (dated, shape, cast) = rw (
    decode_cursor-encode_cursor p lawful (to_ms c.0.created_at) c.0.id dated shape,
    page_behind,
    position_of_cursor,
    lawful.cast_iso (to_ms c.0.created_at) dated,
    cast,
  )

  no_next : (end : Option AnalysisSummary) → next_cursor p false end ≡ none
  unfolding next_cursor
  no_next none = refl
  no_next (some s) = refl

  pub cursor_of-next : (c : Joined) → next_cursor p true (some (to_summary c)) ≡ some (cursor_of c)
  unfolding next_cursor cursor_of to_summary
  cursor_of-next c = refl

  module _ (api : Api) where
    abbrev pub joined : List Joined
    joined = join_replays api.analyses api.replays

    pub page_at-rest :
        (limit : ℕ) (cursor : Option Position) (rest : List Joined)
        → newest_first p (filter (is_after p cursor) joined) ≡ rest
        → page_at p limit cursor api
          ≡ sent 200 [] (
              page
                (map to_summary (take limit rest))
                (next_cursor p (ltb limit (length rest)) (last (map to_summary (take limit rest)))))
    unfolding page_at recent_analyses
    page_at-rest limit cursor rest h = rw (h, take-map-take limit rest, ltb-take limit rest)

    module _ (distinct : IsDistinct joined) (apart : IsSeparated p lawful joined)
        (keyed : All IsKeyed joined) where
      abbrev sorted : List Joined
      sorted = newest_first p joined

      sorted-IsDescending : IsDescending p lawful sorted
      sorted-IsDescending = newest_first-IsDescending p lawful joined distinct

      sorted-IsApart : All (λ b. All (λ a. IsApart p lawful b a) sorted) sorted
      sorted-IsApart =
          All-newest_first p lawful (λ b. All (λ a. IsApart p lawful b a) sorted) joined
            (inner joined apart)
        where
          inner :
              (rows : List Joined)
              → All (λ b. All (λ a. IsApart p lawful b a) joined) rows
              → All (λ b. All (λ a. IsApart p lawful b a) sorted) rows
          inner [] h = tt
          inner (b ∷ rows) (h, hs) =
              (All-newest_first p lawful (λ a. IsApart p lawful b a) joined h, inner rows hs)

      -- The rows behind a row's cursor are the rows behind the row.
      rest_behind :
          (above : List Joined) (c : Joined) (below : List Joined)
          → sorted ≡ above ++ c ∷ below
          → newest_first p (filter (is_after p (some (shown_position c))) joined) ≡ below
      rest_behind above c below s =
          let apart_c =
            All-at (λ b. All (λ a. IsApart p lawful b a) sorted) above c below
              (subst (λ l. All (λ b. All (λ a. IsApart p lawful b a) sorted) l) s sorted-IsApart) in
          let apart_below =
            All-behind (λ a. IsApart p lawful c a) above c below
              (subst (λ l. All (λ a. IsApart p lawful c a) l) s apart_c) in
          newest_first-filter p lawful (some (shown_position c)) joined distinct
          ∙ ap (filter (is_after p (some (shown_position c)))) s
          ∙ filter_cut p lawful above c below (subst (IsDescending p lawful) s sorted-IsDescending)
              apart_below

      sorted-IsKeyed : All IsKeyed sorted
      sorted-IsKeyed = All-newest_first p lawful IsKeyed joined keyed

      pages_behind :
          (fuel n : ℕ) (cursor : Option Text) (position : Option Position)
          (above rest : List Joined)
          → list_analyses p (success (record { limit = suc n; cursor = cursor })) api
            ≡ page_at p (suc n) position api
          → sorted ≡ above ++ rest
          → newest_first p (filter (is_after p position) joined) ≡ rest
          → length rest < fuel
          → IsPaged p (suc n) api fuel cursor (map to_summary rest)
      pages_behind zero n cursor position above rest l s r h = absurd (omega arith)
      pages_behind (suc fuel) n cursor position above rest l s r h =
          let got = l ∙ page_at-rest (suc n) position rest r in
          elim (Bool-cases (ltb (suc n) (length rest))) [
            | inr e ↦
                let whole = take_all (suc n) rest (ground arith) in
                inl (got ∙ rw (e, no_next (last (map to_summary (take (suc n) rest))), whole))
            | inl e ↦
                let page = IsSplit-page n rest (ground arith) in
                let c = page.end in
                let here = append_assoc above page.init (c ∷ page.behind) in
                let s' : sorted ≡ (above ++ page.init) ++ c ∷ page.behind =
                  s ∙ ap (λ l. above ++ l) page.whole ∙ sym here in
                let key =
                  All-at IsKeyed (above ++ page.init) c page.behind
                    (subst (λ l. All IsKeyed l) s' sorted-IsKeyed) in
                let shorter : length page.behind < fuel =
                  omega (arith, ap length page.whole, length-append page.init (c ∷ page.behind)) in
                let behind =
                  pages_behind fuel n (some (cursor_of c)) (some (shown_position c))
                    ((above ++ page.init) ++ c ∷ []) page.behind (cursor_of-read c (suc n) api key)
                    (s' ∙ sym (append_assoc (above ++ page.init) (c ∷ []) page.behind))
                    (rest_behind (above ++ page.init) c page.behind s') shorter in
                let all_rows = map-append (page.init ++ c ∷ []) page.behind in
                let whole : (page.init ++ c ∷ []) ++ page.behind ≡ rest =
                  append_assoc page.init (c ∷ []) page.behind ∙ sym page.whole in
                inr (record {
                  here = map to_summary (page.init ++ c ∷ []);
                  next = cursor_of c;
                  behind = map to_summary page.behind;
                  answer = got ∙ rw (e, page.taken, last_map page.init c, cursor_of-next c);
                  rest = behind;
                  whole = sym all_rows ∙ ap (map to_summary) whole;
                })
          ]

  keep_all : (rows : List Joined) → filter (is_after p none) rows ≡ rows
  unfolding is_after
  keep_all [] = refl
  keep_all (x ∷ rows) = ap (λ l. x ∷ l) (keep_all rows)

  pub list_analyses-IsPaged :
      (api : Api) (fuel limit : ℕ)
      → IsDistinct (joined api)
      → IsSeparated p lawful (joined api)
      → All IsKeyed (joined api)
      → 1 ≤ limit
      → length (newest_first p (joined api)) < fuel
      → IsPaged p limit api fuel none (map to_summary (newest_first p (joined api)))
  unfolding list_analyses
  list_analyses-IsPaged api fuel zero distinct apart keyed positive enough = absurd (omega arith)
  list_analyses-IsPaged api fuel (suc n) distinct apart keyed positive enough =
      pages_behind api distinct apart keyed fuel n none none [] (newest_first p (joined api)) refl
        refl (ap (newest_first p) (keep_all (joined api))) enough

  -- On a platform that behaves as documented, of joined rows from before the year 10000 whose ids are uuids and distinct, and in which of any two rows the older
  -- lies in an earlier millisecond or the newer at a whole one: a client that starts without a
  -- cursor and follows the cursors it is given sees the summaries of all joined rows, each once,
  -- newest first, at any positive page size, if it may ask for more pages than there are rows.
  pub walk_complete :
      (api : Api) (fuel limit : ℕ)
      → IsDistinct (joined api)
      → IsSeparated p lawful (joined api)
      → All IsKeyed (joined api)
      → 1 ≤ limit
      → length (newest_first p (joined api)) < fuel
      → walk p fuel limit none api ≡ map to_summary (newest_first p (joined api))
  walk_complete api fuel limit distinct apart keyed positive enough =
      walk-IsPaged p limit api fuel none (map to_summary (newest_first p (joined api)))
        (list_analyses-IsPaged api fuel limit distinct apart keyed positive enough)
