-- ===== src/Routes/Listing/Walk/Lost.antt =====
-- What the list of api/src/routes.ts shows behind the cursor that it makes from a row: the cursor
-- carries milliseconds, the column microseconds.
use battle_cloud.Common.{
  ℕ, ◌*◌, ◌≡◌, refl, sym, ap, ◌∙◌, Bool, true, ◌&&◌, ◌||◌, ltb, ◌==◌, List, [], ◌∷◌, map, some,
  Text, arith, filter, take, length,
}
use battle_cloud.Platform.{Platform, IsLawful}
use battle_cloud.Contract.Schemas.{success}
use battle_cloud.Store.Jobs.{to_ms}
use battle_cloud.Store.Analyses.{Joined, to_summary, newest_first, is_after, position_lt}
use battle_cloud.Store.Analyses.Order.{shown_position}
use battle_cloud.Routes.{sent, page, Api}
use battle_cloud.Routes.Listing.{next_cursor, last, list_analyses}
use battle_cloud.Routes.Listing.Walk.Pages.{
  joined, IsKeyed, cursor_of, cursor_of-read, cursor_of-next, page_at-rest,
}

module _ (p : Platform) where
  -- Rows of an earlier millisecond, and of the millisecond of the row itself those at its very start
  -- with a lower id.
  abbrev pub is_shown_behind : Joined → Joined → Bool
  is_shown_behind b a =
      ltb (to_ms a.0.created_at) (to_ms b.0.created_at)
      || (a.0.created_at == to_ms b.0.created_at * 1000 && p.uuid_lt a.0.id b.0.id)

  shown_behind : (b a : Joined) → is_after p (some (shown_position b)) a ≡ is_shown_behind b a
  unfolding is_after position_lt
  shown_behind b a = ground arith

  filter-shown_behind :
      (b : Joined) (rows : List Joined)
      → filter (is_after p (some (shown_position b))) rows ≡ filter (is_shown_behind b) rows
  filter-shown_behind b [] = refl
  filter-shown_behind b (a ∷ rows) = rw (shown_behind b a, filter-shown_behind b rows) refl

module _ (p : Platform) (lawful : IsLawful p) (api : Api) where
  -- On a platform that behaves as documented, a client that has the cursor made from a row of before the year 10000 with a uuid as its id and sends it
  -- back gets a page of exactly the rows of earlier milliseconds and those at the very start of the row's own
  -- millisecond with a lower id, newest first, as many as the limit, with a cursor when there are more.
  -- No other row of the row's own millisecond is on it or counts for it, also where the list has it behind
  -- the row.
  pub list_analyses-next_cursor :
      (b : Joined) (limit : ℕ) (raw : Text)
      → IsKeyed p lawful b
      → next_cursor p true (some (to_summary b)) ≡ some raw
      → let behind = newest_first p (filter (is_shown_behind p b) (joined p lawful api)) in
        list_analyses p (success (record { limit = limit; cursor = some raw })) api
        ≡ sent 200 [] (
            page (map to_summary (take limit behind)) (
              next_cursor p
                (ltb limit (length behind))
                (last (map to_summary (take limit behind)))))
  list_analyses-next_cursor b limit raw keyed made =
      let same : cursor_of p lawful b ≡ raw = cc (cursor_of-next p lawful b, made) in
      let rest = ap (newest_first p) (filter-shown_behind p b (joined p lawful api)) in
      ap (λ r. list_analyses p (success (record { limit = limit; cursor = some r })) api) (sym same)
      ∙ cursor_of-read p lawful b limit api keyed
      ∙ page_at-rest p lawful api limit (some (shown_position b)) _ rest
