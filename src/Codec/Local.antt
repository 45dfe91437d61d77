-- ===== src/Codec/Local.antt =====
-- The reader of codec.go on an input with bytes added behind it.
use Prim.Native.Nat.{bit_and, bit_or}
use trend.Prelude.{ℕ, zero, suc, ◌+◌, ◌*◌, ◌^◌, ◌≤◌, ◌≡◌, refl, ap, ◌∙◌, arith, none}
use trend.Prelude.{List, [], ◌∷◌, ◌++◌, length, length-append, take, drop}
use trend.Codec.Reader.{Reader, ReaderM, u64, byte, bytes, uvarint_loop, uvarint, count}
use trend.Codec.Segment.{read_segment}

-- The reader with `more` behind its input.
abbrev pub behind : Reader → List ℕ → Reader
behind r more = record r { input = r.input ++ more }

uvarint_loop-behind :
    (bs : List ℕ) (shift x : ℕ) (more : List ℕ)
    → (uvarint_loop bs shift x).1.err ≡ none
    → uvarint_loop (bs ++ more) shift x
      ≡ ((uvarint_loop bs shift x).0, behind (uvarint_loop bs shift x).1 more)
unfolding uvarint_loop
uvarint_loop-behind [] shift x more h = cc
uvarint_loop-behind (b ∷ bs) shift x more h =
    ground
      (arith, uvarint_loop-behind bs (shift + 7) (bit_or x (u64 (bit_and b 0x7f * 2 ^ shift))) more)

-- `m` is local, and never clears an error.
pub record IsLocal {ℓ} {A : Type ℓ} (m : ReaderM A) : Type ℓ where
  pub sticky : (r : Reader) → (m r).1.err ≡ none → r.err ≡ none
  pub local :
      (r : Reader) (more : List ℕ)
      → (m r).1.err ≡ none
      → m (behind r more) ≡ ((m r).0, behind (m r).1 more)

pub uvarint-IsLocal : IsLocal uvarint
unfolding uvarint
uvarint-IsLocal = record {
  sticky = λ r h. ground arith;
  local = λ r more h. ground (arith, uvarint_loop-behind r.input 0 0 more);
}

pub byte-IsLocal : IsLocal byte
unfolding byte
byte-IsLocal = record { sticky = λ r h. ground arith; local = λ r more h. ground arith }

pub count-IsLocal : IsLocal count
unfolding count
count-IsLocal = record {
  sticky = λ r h. ground (arith, uvarint-IsLocal.sticky r);
  local = λ r more h. ground (arith, uvarint-IsLocal.sticky r, uvarint-IsLocal.local r more);
}

take-append {ℓ} :
    {A : Type ℓ} (n : ℕ) (xs ys : List A) → n ≤ length xs → take n (xs ++ ys) ≡ take n xs
take-append zero xs ys h = refl
take-append (suc n) [] ys h = absurd (omega arith)
take-append (suc n) (x ∷ xs) ys h = rw (take-append n xs ys (omega arith))

drop-append {ℓ} :
    {A : Type ℓ} (n : ℕ) (xs ys : List A) → n ≤ length xs → drop n (xs ++ ys) ≡ drop n xs ++ ys
drop-append zero xs ys h = refl
drop-append (suc n) [] ys h = absurd (omega arith)
drop-append (suc n) (x ∷ xs) ys h = drop-append n xs ys (omega arith)

pub bytes-IsLocal : (n : ℕ) → IsLocal (bytes n)
unfolding bytes
bytes-IsLocal n = record {
  sticky = λ r h. ground arith;
  local = λ r more h.
      ground
        (arith, take-append n r.input more, drop-append n r.input more, length-append r.input more);
}

pub >>=-IsLocal {ℓ κ} :
    {A : Type ℓ} {B : Type κ} (m : ReaderM A) (f : A → ReaderM B)
    → IsLocal m
    → ((a : A) → IsLocal (f a))
    → IsLocal (λ r. f (m r).0 (m r).1)
>>=-IsLocal m f p q = record {
  sticky = λ r h. p.sticky r ((q (m r).0).sticky (m r).1 h);
  local = λ r more h.
      ap (λ t. f t.0 t.1) (p.local r more ((q (m r).0).sticky (m r).1 h))
      ∙ (q (m r).0).local (m r).1 more h;
}

pub pure-IsLocal {ℓ} : {A : Type ℓ} (a : A) → IsLocal (λ r. (a, r))
pure-IsLocal a = record { sticky = λ r h. h; local = λ r more h. refl }

pub read_segment-IsLocal : IsLocal read_segment
unfolding read_segment
read_segment-IsLocal = >>=-IsLocal byte _ byte-IsLocal λ kind.
    >>=-IsLocal uvarint _ uvarint-IsLocal λ from. >>=-IsLocal uvarint _ uvarint-IsLocal λ to.
      >>=-IsLocal count _ count-IsLocal λ n. >>=-IsLocal count _ count-IsLocal λ raw_len.
        >>=-IsLocal count _ count-IsLocal λ zip_len.
          >>=-IsLocal (bytes zip_len) _ (bytes-IsLocal zip_len) λ block. pure-IsLocal (record {
            kind = kind;
            from = from;
            to = to;
            count = n;
            raw_len = raw_len;
            block = block;
          })
