-- ===== src/StringUtils.antt =====
-- src/string_utils.cpp: `StringUtils`. A string is its bytes; `isspace`, `tolower` and `toupper` are
-- those of the C locale. A position in the string that a loop has come to is the suffix from there.
pub mod Find
pub mod Split
pub mod Trim
pub mod Case
mod Tests
use mathlib.Core.Option
use lmcore.Prelude.{
  ℕ, zero, suc, ◌+◌, ◌-◌, Bool, true, false, ◌&&◌, ◌||◌, not, if◌then◌else◌, leb, ltb, ◌==◌, List,
  [], ◌∷◌, ◌++◌, Option, none, some, Bytes, map, length, take, drop, replicate, get_or,
}

-- `std::string::compare` with result 0.
pub bytes_eq : Bytes → Bytes → Bool
bytes_eq [] [] = true
bytes_eq [] (y ∷ ys) = false
bytes_eq (x ∷ xs) [] = false
bytes_eq (x ∷ xs) (y ∷ ys) = x == y && bytes_eq xs ys

pub starts_with : Bytes → Bytes → Bool
starts_with str prefix =
    if ltb (length str) (length prefix) then false else bytes_eq (take (length prefix) str) prefix

pub ends_with : Bytes → Bytes → Bool
ends_with str suffix =
    if ltb (length str) (length suffix)
    then false
    else bytes_eq (drop (length str - length suffix) str) suffix

-- `std::string::find`: the position of the first occurrence.
pub find : Bytes → Bytes → Option ℕ
find [] pat = if starts_with [] pat then some 0 else none
find (c ∷ cs) pat =
    let rest = find cs pat in if starts_with (c ∷ cs) pat then some 0 else Option.map suc rest

abbrev pub is_some {ℓ} : {A : Type ℓ} → Option A → Bool
is_some none = false
is_some (some a) = true

pub contains : Bytes → Bytes → Bool
contains str substr = is_some (find str substr)

abbrev pub is_empty : Bytes → Bool
is_empty [] = true
is_empty (x ∷ xs) = false

-- `push_back`, unless the item is empty and to be skipped.
abbrev pub keep : Bool → Bytes → List Bytes → List Bytes
keep skip_empty item items = if not skip_empty || not (is_empty item) then item ∷ items else items

-- The character goes to the front of the item that the next `getline` had begun.
abbrev pub cons_item : ℕ → List Bytes → List Bytes
cons_item c [] = (c ∷ []) ∷ []
cons_item c (item ∷ items) = (c ∷ item) ∷ items

-- What successive calls of `std::getline` yield; the call at the end of the stream fails.
pub get_lines : Bytes → ℕ → List Bytes
get_lines [] delimiter = []
get_lines (c ∷ cs) delimiter =
    let rest = get_lines cs delimiter in if c == delimiter then [] ∷ rest else cons_item c rest

abbrev pub keep_all : Bool → List Bytes → List Bytes
keep_all skip_empty [] = []
keep_all skip_empty (x ∷ xs) = keep skip_empty x (keep_all skip_empty xs)

-- `Split(str, char, skip_empty)`
pub split_char : Bytes → ℕ → Bool → List Bytes
split_char str delimiter skip_empty = keep_all skip_empty (get_lines str delimiter)

-- A round of the loop of `Split(str, string, skip_empty)`, at what `find` has found.
abbrev pub split_round : Option ℕ → Bytes → Bytes → Bool → (Bytes → List Bytes) → List Bytes
split_round none str delimiter skip_empty loop = keep skip_empty str []
split_round (some end) str delimiter skip_empty loop =
    keep skip_empty (take end str) (loop (drop (end + length delimiter) str))

-- The loop from `start` on, on fuel.
pub split_loop : ℕ → Bytes → Bytes → Bool → List Bytes
split_loop zero str delimiter skip_empty = []
split_loop (suc fuel) str delimiter skip_empty =
    split_round (find str delimiter) str delimiter skip_empty
      (λ rest. split_loop fuel rest delimiter skip_empty)

pub split : Bytes → Bytes → Bool → List Bytes
split str delimiter skip_empty =
    if is_empty str || is_empty delimiter
    then (if is_empty str then [] else str ∷ [])
    else split_loop (suc (length str)) str delimiter skip_empty

-- The rounds of the loop after the first.
abbrev pub join_more : List Bytes → Bytes → Bytes
join_more [] separator = []
join_more (x ∷ xs) separator = separator ++ (x ++ join_more xs separator)

pub join : List Bytes → Bytes → Bytes
join [] separator = []
join (x ∷ xs) separator = x ++ join_more xs separator

pub is_space : ℕ → Bool
is_space c = c == 32 || (leb 9 c && leb c 13)

pub trim_left : Bytes → Bytes
trim_left [] = []
trim_left (c ∷ cs) = let rest = trim_left cs in if is_space c then rest else c ∷ cs

-- The loop of `TrimRight`, from `end` down.
pub trim_end : Bytes → ℕ → ℕ
trim_end str zero = 0
trim_end str (suc end) =
    let rest = trim_end str end in if is_space (get_or str end 0) then rest else suc end

pub trim_right : Bytes → Bytes
trim_right str = take (trim_end str (length str)) str

pub trim : Bytes → Bytes
trim str = trim_left (trim_right str)

unfoldable pub lower_char : ℕ → ℕ
lower_char c = if leb b'A' c && leb c b'Z' then c + 32 else c

pub upper_char : ℕ → ℕ
upper_char c = if leb b'a' c && leb c b'z' then c - 32 else c

pub to_lower : Bytes → Bytes
to_lower str = map lower_char str

pub to_upper : Bytes → Bytes
to_upper str = map upper_char str

-- The loop of `EqualsIgnoreCase`, on strings of one length.
abbrev pub same_lower : Bytes → Bytes → Bool
same_lower (x ∷ xs) (y ∷ ys) =
    let rest = same_lower xs ys in if lower_char x == lower_char y then rest else false
same_lower _ _ = true

pub equals_ignore_case : Bytes → Bytes → Bool
equals_ignore_case str1 str2 = if length str1 == length str2 then same_lower str1 str2 else false

-- What is done at the place that `find` has found, by `Replace` and by a round of `ReplaceAll`.
abbrev pub replace_round : Option ℕ → Bytes → Bytes → Bytes → (Bytes → Bytes) → Bytes
replace_round none str from to loop = str
replace_round (some pos) str from to loop =
    take pos str ++ (to ++ loop (drop (pos + length from) str))

-- `Replace`: the first occurrence only.
pub replace : Bytes → Bytes → Bytes → Bytes
replace str from to =
    if is_empty from then str else replace_round (find str from) str from to (λ rest. rest)

-- The loop of `ReplaceAll` from `pos` on, on fuel; what stands before `pos` is not looked at again.
pub replace_loop : ℕ → Bytes → Bytes → Bytes → Bytes
replace_loop zero str from to = str
replace_loop (suc fuel) str from to =
    replace_round (find str from) str from to (λ rest. replace_loop fuel rest from to)

pub replace_all : Bytes → Bytes → Bytes → Bytes
replace_all str from to = if is_empty from then str else replace_loop (suc (length str)) str from to

pub pad : Bytes → ℕ → ℕ → Bool → Bytes
pad str len pad_char left =
    let padding = replicate (len - length str) pad_char in
    if leb len (length str) then str else if left then padding ++ str else str ++ padding

-- The loop of `Repeat`.
abbrev pub repeat_loop : Bytes → ℕ → Bytes
repeat_loop str zero = []
repeat_loop str (suc count) = str ++ repeat_loop str count

pub repeat : Bytes → ℕ → Bytes
repeat str count = if count == 0 || is_empty str then [] else repeat_loop str count
