-- ===== src/Namer.antt =====
-- plugin/namer.hpp: the names of the functions that the compiler plugin generates. A std::string is
-- the list of its character codes; the parts of a name are parts of an identifier of C, without
-- blanks and signs. A size_t has 64 bits, and an int 32. The session file is not modelled.
pub mod Decimal
pub mod RoundTrip
mod Tests
use shiyanhui_libcsp.Base.{
  ℕ, zero, suc, ◌+◌, ◌-◌, ◌*◌, ◌/◌, ◌%◌, ◌^◌, Bool, true, false, not, ◌&&◌, ◌||◌, ◌==◌, ltb, leb,
  if◌then◌else◌, Option, none, some, ◌>>=◌, List, [], ◌∷◌, ◌++◌, length, take, drop,
}

abbrev pub Text : Type 0
Text = List ℕ

-- The codes of `_` and of `0`.
abbrev pub underscore : ℕ
underscore = 95

abbrev pub digit_zero : ℕ
digit_zero = 48

-- `csp_proc_prefix`, "csp___".
abbrev pub prefix : Text
prefix = 99 ∷ 115 ∷ 112 ∷ 95 ∷ 95 ∷ 95 ∷ []

-- `namer_type_t`.
pub data NamerType : Type 0 where
  async : NamerType
  sync : NamerType
  timer : NamerType
  other : NamerType

-- `namer_type_labels`.
abbrev pub label : NamerType → Text
label async = 97 ∷ 115 ∷ 121 ∷ 110 ∷ 99 ∷ []
label sync = 115 ∷ 121 ∷ 110 ∷ 99 ∷ []
label timer = 116 ∷ 105 ∷ 109 ∷ 101 ∷ 114 ∷ []
label other = 111 ∷ 116 ∷ 104 ∷ 101 ∷ 114 ∷ []

-- `namer_entity_t`.
pub record Entity : Type 0 where
  pub id : ℕ
  pub name : Text
  pub type : NamerType

-- Equality of strings.
unfoldable pub eq_text : Text → Text → Bool
eq_text [] [] = true
eq_text [] (y ∷ ys) = false
eq_text (x ∷ xs) [] = false
eq_text (x ∷ xs) (y ∷ ys) = (x == y) && eq_text xs ys

-- `ss << id`: the number in decimal.
unfoldable pub print : (fuel n : ℕ) → Text
print zero n = []
print (suc fuel) n =
    let rest = print fuel (n / 10) in
    if ltb n 10 then (digit_zero + n) ∷ [] else rest ++ (digit_zero + n % 10) ∷ []

abbrev pub is_digit : ℕ → Bool
is_digit c = leb digit_zero c && ltb c (digit_zero + 10)

-- The digits at the start of a string.
unfoldable pub read_on : (value : ℕ) → Text → ℕ
read_on value [] = value
read_on value (c ∷ cs) =
    let rest = read_on (value * 10 + (c - digit_zero)) cs in if is_digit c then rest else value

-- `ss >> entity.id`, which fails without a digit and on overflow.
unfoldable pub read : Text → Option ℕ
read [] = none
read (c ∷ cs) =
    let value = read_on 0 (c ∷ cs) in if is_digit c && ltb value (2 ^ 64) then some value else none

-- `name.find('_')`, with what stands before and behind it.
unfoldable pub split : Text → Option (Text × Text)
split [] = none
split (c ∷ cs) =
    let rest = split cs in
    if c == underscore then some ([], cs) else (rest >>= (λ r. some (c ∷ r.0, r.1)))

-- One step of the loop of `is_generated`.
unfoldable pub begins_with : Text → NamerType → Bool
unfolding eq_text
begins_with name t = let start = prefix ++ label t in eq_text (take (length start) name) start

unfoldable pub is_generated : Text → Bool
unfolding begins_with
is_generated name =
    begins_with name async
    || begins_with name sync
    || begins_with name timer
    || begins_with name other

-- The search of `parse` for the label.
unfoldable pub type_of : Text → Option NamerType
unfolding eq_text
type_of part =
    if eq_text part (label async)
    then some async
    else if eq_text part (label sync)
    then some sync
    else if eq_text part (label timer)
    then some timer
    else if eq_text part (label other)
    then some other
    else none

-- `parse` behind the prefix.
unfoldable pub parse_parts : Text → Option Entity
unfolding split type_of read
parse_parts text = split text >>= (λ first. type_of first.0 >>= (λ t.
    split first.1
    >>= (λ second. read second.0 >>= (λ n. some (record { id = n; name = second.1; type = t })))))

-- `parse`: the entity, where it returns true.
unfoldable pub parse : Text → Option Entity
unfolding is_generated parse_parts
parse name = if is_generated name then parse_parts (drop (length prefix) name) else none

-- `format`.
unfoldable pub format : Entity → Text
unfolding print
format entity =
    prefix
    ++ (label entity.type
        ++ (underscore ∷ (print (entity.id + 1) entity.id ++ (underscore ∷ entity.name))))

-- `namer_t`; `next_id` is an int.
pub record Namer : Type 0 where
  pub next_id : ℕ
  pub latest_name : Text

-- `next_name`.
unfoldable pub next_name : (fn_name : Text) → NamerType → Namer → Text × Namer
unfolding format
next_name fn_name t s =
    let name = format (record { id = s.next_id; name = fn_name; type = t }) in
    (name, record { next_id = s.next_id + 1; latest_name = name })

-- `current_id` and `current_name`.
abbrev pub current_id : Namer → ℕ
current_id s = s.next_id - 1

abbrev pub current_name : Namer → Text
current_name s = s.latest_name
