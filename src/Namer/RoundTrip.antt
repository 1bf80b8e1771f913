-- ===== src/Namer/RoundTrip.antt =====
-- parse of plugin/namer.hpp reads what format writes.
use shiyanhui_libcsp.Base.{
  ℕ, suc, ◌+◌, ◌/◌, ◌^◌, ◌<◌, ◌≡◌, ◌≢◌, refl, sym, ap, ◌∙◌, inl, inr, true, false, Bool-cases, ◌==◌,
  ltb, lt→ltb, some, [], ◌∷◌, ◌++◌, arith, has, length,
}
use shiyanhui_libcsp.Namer.{
  Text, underscore, prefix, NamerType, async, sync, timer, other, label, Entity, eq_text, print,
  is_digit, read, read_on, split, begins_with, is_generated, type_of, parse_parts, parse, format,
  Namer, next_name,
}
use shiyanhui_libcsp.Namer.Decimal.{all_digits, print-all_digits, no_underscore, read_on-print}

split-append :
    (part rest : Text)
    → has underscore part ≡ false
    → split (part ++ (underscore ∷ rest)) ≡ some (part, rest)
unfolding split
split-append [] rest h = refl
split-append (c ∷ part) rest h =
    let apart : (c == underscore) ≡ false = ground arith in
    let later : has underscore part ≡ false = ground arith in
    rw (apart, split-append part rest later) refl

label-no_underscore : (t : NamerType) → has underscore (label t) ≡ false
label-no_underscore async = refl
label-no_underscore sync = refl
label-no_underscore timer = refl
label-no_underscore other = refl

type_of-label : (t : NamerType) → type_of (label t) ≡ some t
unfolding type_of eq_text
type_of-label async = refl
type_of-label sync = refl
type_of-label timer = refl
type_of-label other = refl

begins-is_generated :
    (t : NamerType) (rest : Text) → is_generated (prefix ++ (label t ++ rest)) ≡ true
unfolding is_generated begins_with eq_text
begins-is_generated async rest = refl
begins-is_generated sync rest = refl
begins-is_generated timer rest = refl
begins-is_generated other rest = refl

-- A text of digits that is read to its end.
digits-read :
    (xs : Text) (n : ℕ)
    → all_digits xs ≡ true
    → xs ≢ []
    → read_on 0 xs ≡ n
    → n < 2 ^ 64
    → read xs ≡ some n
unfolding read
digits-read [] n d some_left all small = absurd (some_left refl)
digits-read (c ∷ cs) n d some_left all small =
    let first : is_digit c ≡ true = ground arith in
    rw (read, first, all, lt→ltb n (2 ^ 64) small) refl

snoc-some : (xs : Text) (c : ℕ) → xs ++ c ∷ [] ≢ []
snoc-some [] c h = absurd (omega (arith, ap length h))
snoc-some (x ∷ xs) c h = absurd (omega (arith, ap length h))

print-some : (fuel n : ℕ) → print (suc fuel) n ≢ []
unfolding print
print-some fuel n h = elim (Bool-cases (ltb n 10)) [
  | inl small ↦ absurd (let e = rw small at h in omega (arith, ap length e))
  | inr large ↦ absurd (snoc-some (print fuel (n / 10)) _ (rw large at h))
]

read-print : (n : ℕ) → n < 2 ^ 64 → read (print (n + 1) n) ≡ some n
read-print n small =
    let one_more : suc n ≡ n + 1 = omega arith in
    digits-read (print (n + 1) n) n (print-all_digits (n + 1) n)
      (λ e. print-some n n (ap (λ f. print f n) one_more ∙ e))
      (read_on-print (n + 1) n (omega arith)) small

-- `parse` gives back the entity from the name that `format` makes of it, whatever the name of the
-- function is, for every id of a size_t.
pub parse-format : (entity : Entity) → entity.id < 2 ^ 64 → parse (format entity) ≡ some entity
unfolding parse parse_parts format
parse-format entity small =
    let digits = print (entity.id + 1) entity.id in
    let tail = underscore ∷ (digits ++ (underscore ∷ entity.name)) in
    let clean : has underscore digits ≡ false =
      no_underscore digits (print-all_digits (entity.id + 1) entity.id) in
    rw
      (
        begins-is_generated entity.type tail,
        split-append (label entity.type) (digits ++ (underscore ∷ entity.name))
            (label-no_underscore entity.type),
        type_of-label entity.type,
        split-append digits entity.name clean,
        read-print entity.id small,
      )
      refl

format-injective : (a b : Entity) → a.id < 2 ^ 64 → b.id < 2 ^ 64 → format a ≡ format b → a ≡ b
format-injective a b small small' same =
    cc (sym (parse-format a small) ∙ ap parse same ∙ parse-format b small')

-- A namer whose ids have not reached the limit of an int never makes a name that it has made before:
-- the names of two calls, with any other calls between them, differ, whatever functions and types
-- they are for.
pub next_name-fresh :
    (f g : Text) (t u : NamerType) (s s' : Namer)
    → s.next_id < s'.next_id
    → s'.next_id < 2 ^ 31
    → (next_name f t s).0 ≢ (next_name g u s').0
unfolding next_name
next_name-fresh f g t u s s' later small same =
    let both =
      format-injective (record { id = s.next_id; name = f; type = t })
        (record { id = s'.next_id; name = g; type = u }) (omega arith) (omega arith) same in
    absurd (omega (arith, ap (λ (e : Entity). e.id) both))
