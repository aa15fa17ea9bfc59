-- ===== src/Schedule/Listed.antt =====
-- A list in the order of its keys as the tree of the sleepers.
use dyco_coroutine.Base.{ℕ, ◌≡◌, refl, inl, inr, Option, none, some, List, ◌⊎◌}
use dyco_coroutine.Schedule.Tree.{
  Sleeper, SleepTree, Laws, Inserts, found, added, find_key, insert_key, remove_co, first_co,
  map_entries,
}

abbrev pub insert_at : Option ℕ → List Sleeper → ℕ → ℕ → List Sleeper ⊎ ℕ
insert_at none es k co = inl (insert_key (record { key = k; co = co }) es)
insert_at (some other) es k co = inr other

abbrev pub listed : SleepTree (List Sleeper)
listed = record {
  entries = λ es. es;
  find = λ es k. find_key k es;
  insert = λ es k co. insert_at (find_key k es) es k co;
  remove = λ es co. remove_co co es;
  min = first_co;
}

insert_at-Inserts :
    (o : Option ℕ) (es : List Sleeper) (k co : ℕ)
    → find_key k es ≡ o
    → Inserts listed es (record { key = k; co = co }) (insert_at o es k co)
insert_at-Inserts none es k co h = added h refl
insert_at-Inserts (some other) es k co h = found h

listed-map : (o : Option (List Sleeper)) → map_entries listed o ≡ o
unfolding map_entries
listed-map none = refl
listed-map (some es) = refl

pub listed-Laws : Laws listed
listed-Laws = record {
  find-key = λ t k. refl;
  insert-Inserts = λ t k co. insert_at-Inserts (find_key k t) t k co refl;
  remove-entries = λ t co. listed-map (remove_co co t);
  min-first = λ t. refl;
}
