-- ===== src/Examples/Stores.antt =====
-- The cached store over two stores of one key.
use trend.Prelude.{◌≡◌, refl, arith, ◌⊎◌, inl, inr, true, none, some, [], ◌∷◌}
use trend.Cached.{Bytes, is_set, Store, load, update, delete}
use trend.Cached.Coherence.{
  IsPrimary, IsCache, IsCoherent, load-IsCoherent, update-IsCoherent, delete-IsCoherent,
}

abbrev cell : Store (Unit {0}) (Unit {0}) Bytes
cell = record {
  load = λ s key. (s, (s, none));
  update = λ s key merge.
      (let (out, e) = merge s in elim e [ none ↦ (out, none) | some e ↦ (s, some e) ]);
  delete = λ s key. (none, none);
  close = λ s. (s, none);
}

abbrev held : Bytes → Unit {0} → Bytes
held s key = s

cell-IsPrimary : IsPrimary cell held
cell-IsPrimary = record {
  load_view = λ s key j. refl;
  load_found = λ s key e. refl;
  update_other = λ s key j merge. inl refl;
  update_failed = λ s key j merge e. ground (arith, e);
  delete_other = λ s key j. inl refl;
}

cell-IsCache : IsCache cell held
cell-IsCache = record {
  load_view = λ s key j. inr refl;
  load_found = λ s key e. refl;
  update_view = λ s key j bs. inr (inr (refl, refl));
  delete_gone = λ s key. refl;
  delete_view = λ s key j. inl refl;
}

-- The primary store holds a value, and the cache nothing yet.
abbrev value : Bytes
value = some (4 ∷ 1 ∷ [])

cold : IsCoherent cell cell held held (value, none)
cold = record { holds = λ j. inl refl }

warm : IsCoherent cell cell held held (value, value)
warm = record { holds = λ j. inr refl }

load-IsCoherent_example :
    IsCoherent cell cell held held (load cell (some cell) (value, none) tt).0
    × ((is_set (load cell (some cell) (value, none) tt).1.1 ≡ true)
        ⊎ ((load cell (some cell) (value, none) tt).1.0 ≡ value))
load-IsCoherent_example =
    load-IsCoherent cell cell held held cell-IsPrimary cell-IsCache value none tt cold

update-IsCoherent_example :
    IsCoherent cell cell held held
      (update cell (some cell) (value, value) tt (λ old. (some [], none))).0
update-IsCoherent_example =
    update-IsCoherent cell cell held held cell-IsPrimary cell-IsCache value value tt
      (λ old. (some [], none)) warm

delete-IsCoherent_example :
    IsCoherent cell cell held held (delete cell (some cell) (value, value) tt).0
delete-IsCoherent_example =
    delete-IsCoherent cell cell held held cell-IsPrimary cell-IsCache value value tt warm
