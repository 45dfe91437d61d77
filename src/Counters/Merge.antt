-- ===== src/Counters/Merge.antt =====
-- `Merge` of counterData in counters_state.go, on the raw operations.
use trend.Prelude.{ℕ, suc, ◌+◌, ◌≤◌, ◌<◌, ◌≡◌, refl, ap, ◌∙◌, arith, true, false, ◌&&◌}
use trend.Prelude.{List, [], ◌∷◌, ◌++◌, foldl, length, length-append}
use trend.Prelude.{ltb, ◌==◌, if◌then◌else◌, All, min}
use trend.Data.{CounterData}
use trend.Maps.{lookup, keys, get_or, sorted_times, IsIncreasing, mem}
use trend.Maps.Laws.{
  lookup-insert, insert-IsDistinct, IsDistinct, sorted_times-IsIncreasing, mem-sorted_times,
}
use trend.Counters.{
  CounterOp, add, rows_of, rows, op_eq, mem_op, insert_op, add_op, ops_of, add_ops, merge,
}

-- How often an operation stands in a list, and how often a row in a list of rows.
unfoldable pub count_op : CounterOp → List CounterOp → ℕ
count_op op [] = 0
count_op op (x ∷ xs) = if op_eq x op then suc (count_op op xs) else count_op op xs

unfoldable pub count_row : ℕ → CounterOp → List (ℕ × CounterOp) → ℕ
count_row t op [] = 0
count_row t op ((k, x) ∷ rs) =
    if k == t && op_eq x op then suc (count_row t op rs) else count_row t op rs

count_op-append :
    (op : CounterOp) (xs ys : List CounterOp)
    → count_op op (xs ++ ys) ≡ count_op op xs + count_op op ys
unfolding count_op
count_op-append op [] ys = omega arith
count_op-append op (x ∷ xs) ys = ground (arith, count_op-append op xs ys)

mem_op-count : (op : CounterOp) (xs : List CounterOp) → mem_op op xs ≡ ltb 0 (count_op op xs)
unfolding count_op
mem_op-count op [] = refl
mem_op-count op (x ∷ xs) = ground (arith, mem_op-count op xs)

-- Every operation at most once.
abbrev IsOnce : List CounterOp → Type 0
IsOnce xs = (op : CounterOp) → count_op op xs ≤ 1

op_eq_trans : (a b c : CounterOp) → op_eq a b ≡ true → op_eq a c ≡ true → op_eq b c ≡ true
op_eq_trans a b c h k = ground (arith, h, k)

op_eq_count :
    (a b : CounterOp) → op_eq a b ≡ true → (xs : List CounterOp) → count_op a xs ≡ count_op b xs
unfolding count_op
op_eq_count a b h [] = refl
op_eq_count a b h (x ∷ xs) = ground (arith, op_eq_count a b h xs)

count-insert_op :
    (op x : CounterOp) (xs : List CounterOp)
    → count_op op xs ≤ 1
    → count_op op (insert_op x xs) ≡ (if op_eq x op then 1 else count_op op xs)
unfolding insert_op count_op
count-insert_op op x xs h =
    ground (arith, h, mem_op-count x xs, op_eq_count x op, count_op-append op xs (x ∷ []))

count-add_op :
    (t k : ℕ) (op x : CounterOp) (m : List (ℕ × List CounterOp))
    → count_op op (get_or m t []) ≤ 1
    → count_op op (get_or (add_op m (k, x)) t [])
      ≡ (if k == t && op_eq x op then 1 else count_op op (get_or m t []))
unfolding add_op
count-add_op t k op x m h = ground (
  arith,
  h,
  lookup-insert t k (insert_op x (get_or m k [])) m,
  count-insert_op op x (get_or m k []),
)

count-ops_loop :
    (t : ℕ) (op : CounterOp) (rs : List (ℕ × CounterOp)) (m : List (ℕ × List CounterOp))
    → count_op op (get_or m t []) ≤ 1
    → count_op op (get_or (foldl add_op m rs) t [])
      ≡ min 1 (count_op op (get_or m t []) + count_row t op rs)
unfolding count_row
count-ops_loop t op [] m h = omega (arith, h)
count-ops_loop t op ((k, x) ∷ rs) m h =
    ground (arith, h, count-add_op t k op x m h, count-ops_loop t op rs (add_op m (k, x)))

-- Columns of one length.
pub record IsRect (d : CounterData) : Type 0 where
  pub replica_length : length d.replica ≡ length d.time
  pub clock_length : length d.clock ≡ length d.time
  pub value_length : length d.value ≡ length d.time

rows_of-append :
    (ts rs cs vs : List ℕ) (t r c v : ℕ)
    → length rs ≡ length ts
    → length cs ≡ length ts
    → length vs ≡ length ts
    → rows_of (ts ++ (t ∷ [])) (rs ++ (r ∷ [])) (cs ++ (c ∷ [])) (vs ++ (v ∷ []))
      ≡ rows_of ts rs cs vs ++ ((t, record { replica = r; clock = c; value = v }) ∷ [])
unfolding rows_of
rows_of-append [] [] [] [] t r c v p q s = refl
rows_of-append [] (x ∷ rs) cs vs t r c v p q s = absurd (omega arith)
rows_of-append [] [] (x ∷ cs) vs t r c v p q s = absurd (omega arith)
rows_of-append [] [] [] (x ∷ vs) t r c v p q s = absurd (omega arith)
rows_of-append (y ∷ ts) [] cs vs t r c v p q s = absurd (omega arith)
rows_of-append (y ∷ ts) (x ∷ rs) [] vs t r c v p q s = absurd (omega arith)
rows_of-append (y ∷ ts) (x ∷ rs) (z ∷ cs) [] t r c v p q s = absurd (omega arith)
rows_of-append (y ∷ ts) (x ∷ rs) (z ∷ cs) (w ∷ vs) t r c v p q s =
    ap (λ ys. (y, record { replica = x; clock = z; value = w }) ∷ ys)
      (rows_of-append ts rs cs vs t r c v (omega arith) (omega arith) (omega arith))

pub add-IsRect : (d : CounterData) (t r c v : ℕ) → IsRect d → IsRect (add d t r c v)
unfolding add
add-IsRect d t r c v h = record {
  replica_length =
      omega
        (arith, h.replica_length, length-append d.replica (r ∷ []), length-append d.time (t ∷ []));
  clock_length =
      omega (arith, h.clock_length, length-append d.clock (c ∷ []), length-append d.time (t ∷ []));
  value_length =
      omega (arith, h.value_length, length-append d.value (v ∷ []), length-append d.time (t ∷ []));
}

pub rows-add :
    (d : CounterData) (t r c v : ℕ)
    → IsRect d
    → rows (add d t r c v) ≡ rows d ++ ((t, record { replica = r; clock = c; value = v }) ∷ [])
unfolding rows add
rows-add d t r c v h =
    rows_of-append d.time d.replica d.clock d.value t r c v h.replica_length h.clock_length
      h.value_length

count_row-append :
    (t : ℕ) (op : CounterOp) (xs ys : List (ℕ × CounterOp))
    → count_row t op (xs ++ ys) ≡ count_row t op xs + count_row t op ys
unfolding count_row
count_row-append t op [] ys = omega arith
count_row-append t op ((k, x) ∷ xs) ys = ground (arith, count_row-append t op xs ys)

add_ops-IsRect :
    (t : ℕ) (ops : List CounterOp) (d : CounterData) → IsRect d → IsRect (add_ops t d ops)
unfolding add_ops
add_ops-IsRect t [] d h = h
add_ops-IsRect t (x ∷ ops) d h =
    add_ops-IsRect t ops (add d t x.replica x.clock x.value)
      (add-IsRect d t x.replica x.clock x.value h)

count-add :
    (t k : ℕ) (op x : CounterOp) (d : CounterData)
    → IsRect d
    → count_row k op (rows (add d t x.replica x.clock x.value))
      ≡ count_row k op (rows d) + (if t == k && op_eq x op then 1 else 0)
unfolding count_row
count-add t k op x d h =
    ap (count_row k op) (rows-add d t x.replica x.clock x.value h)
    ∙ count_row-append k op (rows d) ((t, x) ∷ [])
    ∙ ground arith

count-add_ops :
    (t k : ℕ) (op : CounterOp) (ops : List CounterOp) (d : CounterData)
    → IsRect d
    → count_row k op (rows (add_ops t d ops))
      ≡ count_row k op (rows d) + (if t == k then count_op op ops else 0)
unfolding add_ops count_op
count-add_ops t k op [] d h = ground arith
count-add_ops t k op (x ∷ ops) d h = ground (
  arith,
  count-add t k op x d h,
  count-add_ops t k op ops (add d t x.replica x.clock x.value)
      (add-IsRect d t x.replica x.clock x.value h),
)

module _ (order : ℕ → List CounterOp → List CounterOp) (m : List (ℕ × List CounterOp)) where
  abbrev add_time : CounterData → ℕ → CounterData
  add_time e t = add_ops t e (order t (get_or m t []))

  add_times-IsRect : (ts : List ℕ) (d : CounterData) → IsRect d → IsRect (foldl add_time d ts)
  add_times-IsRect [] d h = h
  add_times-IsRect (t ∷ ts) d h =
      add_times-IsRect ts (add_time d t) (add_ops-IsRect t (order t (get_or m t [])) d h)

  above-mem : (k : ℕ) (ts : List ℕ) → All (λ y. k < y) ts → mem k ts ≡ false
  above-mem k [] h = refl
  above-mem k (x ∷ xs) (p, h) = ground (arith, above-mem k xs h)

  count-add_times :
      (k : ℕ) (op : CounterOp) (ts : List ℕ) (d : CounterData)
      → IsRect d
      → IsIncreasing ts
      → count_row k op (rows (foldl add_time d ts))
        ≡ count_row k op (rows d) + (if mem k ts then count_op op (order k (get_or m k [])) else 0)
  count-add_times k op [] d h i = omega arith
  count-add_times k op (t ∷ ts) d h (p, i) =
      let ops = order t (get_or m t []) in
      ground (
        arith,
        above-mem t ts p,
        count-add_ops t k op ops d h,
        count-add_times k op ts (add_ops t d ops) (add_ops-IsRect t ops d h) i,
      )

pub ops_of-IsDistinct :
    (rs : List (ℕ × CounterOp)) (m : List (ℕ × List CounterOp))
    → IsDistinct (keys m)
    → IsDistinct (keys (foldl add_op m rs))
unfolding add_op
ops_of-IsDistinct [] m h = h
ops_of-IsDistinct ((t, x) ∷ rs) m h =
    ops_of-IsDistinct rs (add_op m (t, x)) (insert-IsDistinct t (insert_op x (get_or m t [])) m h)

none_at : (t : ℕ) → get_or {V = List CounterOp} [] t [] ≡ []
unfolding lookup
none_at t = refl

count-ops_of :
    (t : ℕ) (op : CounterOp) (d delta : CounterData)
    → count_op op (get_or (ops_of d delta) t [])
      ≡ min 1 (count_row t op (rows d) + count_row t op (rows delta))
unfolding ops_of count_op lookup
count-ops_of t op d delta =
    let first = count-ops_loop t op (rows d) [] (omega arith) in
    let second =
      count-ops_loop t op (rows delta) (foldl add_op [] (rows d)) (omega (arith, first)) in
    omega (arith, first, second)

missing :
    (t : ℕ) (m : List (ℕ × List CounterOp)) → mem t (sorted_times m) ≡ false → get_or m t [] ≡ []
missing t m h = ground (arith, mem-sorted_times t m, h)

-- `order` visits every operation of a time as often as it is there.
abbrev pub Reorders : (ℕ → List CounterOp → List CounterOp) → Type 0
Reorders order =
    (t : ℕ) (xs : List CounterOp) (op : CounterOp) → count_op op (order t xs) ≡ count_op op xs

module _ (order : ℕ → List CounterOp → List CounterOp) (d delta : CounterData) where
  -- Whatever the operands hold, the columns of a merged series have one length.
  pub merge-IsRect : IsRect (merge order d delta)
  unfolding merge
  merge-IsRect =
      let ops = ops_of d delta in
      let h = add_times-IsRect order ops (sorted_times ops) cleared cleared-IsRect in
      record {
        replica_length = h.replica_length;
        clock_length = h.clock_length;
        value_length = h.value_length;
      }
    where
      cleared : CounterData
      cleared = record d { time = []; replica = []; clock = []; value = [] }

      cleared-IsRect : IsRect cleared
      cleared-IsRect = record { replica_length = refl; clock_length = refl; value_length = refl }

  -- In whatever order Go visits a set, an operation stands once in a merged series if it stands in
  -- an operand, and does not stand there otherwise.
  pub count_row-merge :
      Reorders order
      → (t : ℕ) (op : CounterOp)
      → count_row t op (rows (merge order d delta))
        ≡ min 1 (count_row t op (rows d) + count_row t op (rows delta))
  unfolding merge rows rows_of count_row count_op ops_of
  count_row-merge h t op =
      let ops = ops_of d delta in
      let cleared : CounterData = record d { time = []; replica = []; clock = []; value = [] } in
      let e =
        count-add_times order ops t op (sorted_times ops) cleared
          record { replica_length = refl; clock_length = refl; value_length = refl }
          (sorted_times-IsIncreasing ops (
            ops_of-IsDistinct (rows delta) (foldl add_op [] (rows d))
              (ops_of-IsDistinct (rows d) [] tt))) in
      e ∙ ground (arith, missing t ops, h t (get_or ops t []) op, count-ops_of t op d delta)
