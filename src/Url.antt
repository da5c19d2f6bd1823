-- ===== src/Url.antt =====
-- src/url.cpp, include/lmcore/url.h: `URL`, its parser and its printer, percent-encoding, queries.
-- The functions of the standard library that do a part of that are arguments, with their documented
-- behaviour as laws: `std::regex_match`, which is given the expression of the code, `std::stoi` in both
-- bases and the printing of a number. Characters are bytes, classified as in the "C" locale.
pub mod Match
pub mod Text
pub mod Codec
pub mod Expression
pub mod Query
pub mod Authority
pub mod Whole
pub mod Sample
mod Tests
use lmcore.Prelude.{
  ℕ, zero, suc, ◌+◌, ◌*◌, ◌/◌, ◌%◌, ◌^◌, ◌<◌, ◌≡◌, Bool, true, false, if◌then◌else◌, ltb, leb, ◌==◌,
  ◌&&◌, ◌||◌, not, List, [], ◌∷◌, ◌++◌, Option, none, some, map, All, Bytes, IsByte, codes,
}
use lmcore.Hex.{hex_char}
use lmcore.StringUtils.{lower_char}

-- The groups 2, 4, 5, 7 and 9 of the match.
pub record Parts : Type 0 where
  pub scheme : Bytes
  pub authority : Bytes
  pub path : Bytes
  pub query : Bytes
  pub fragment : Bytes

-- The regular expressions that the code uses: a character of a class, as many of a class as there are, one
-- expression behind another, an optional one, and a group with its number.
pub data Regex : Type 0 where
  one many : (ℕ → Bool) → Regex
  seq : Regex → Regex → Regex
  opt : Regex → Regex
  group : ℕ → Regex → Regex

-- A class, or a dot, which is any character but NUL.
abbrev pub but : Bytes → ℕ → Bool
but [] c = true
but (x ∷ xs) c = not (c == x) && but xs c

abbrev pub is_dot : ℕ → Bool
is_dot c = not (c == 0)

abbrev pub is_char : ℕ → ℕ → Bool
is_char x c = c == x

-- `URL_REGEX`: ^(([^:/?#]+):)?(//([^/?#]*))?([^?#]*)(\?([^#]*))?(#(.*))?
pub url_regex : Regex
url_regex =
    let scheme = but (codes ":/?#") in
    let colon = Regex.one (is_char b':') in
    let slash = Regex.one (is_char b'/') in
    let mark = Regex.one (is_char b'?') in
    let hash = Regex.one (is_char b'#') in
    Regex.seq
      (Regex.opt (
        Regex.group 1
          (Regex.seq (Regex.group 2 (Regex.seq (Regex.one scheme) (Regex.many scheme))) colon)))
      (Regex.seq
        (Regex.opt (
          Regex.group 3
            (Regex.seq slash (Regex.seq slash (Regex.group 4 (Regex.many (but (codes "/?#"))))))))
        (Regex.seq (Regex.group 5 (Regex.many (but (codes "?#")))) (
          Regex.seq
            (Regex.opt
              (Regex.group 6 (Regex.seq mark (Regex.group 7 (Regex.many (but (codes "#")))))))
            (Regex.opt (Regex.group 8 (Regex.seq hash (Regex.group 9 (Regex.many is_dot))))))))

-- `matches`: the text of each group, which is empty for one that has no part in the match.
abbrev pub Groups : Type 0
Groups = ℕ → Bytes

abbrev pub parts_of : Groups → Parts
parts_of matches = record {
  scheme = matches 2;
  authority = matches 4;
  path = matches 5;
  query = matches 7;
  fragment = matches 9;
}

-- What the code calls: `none` where `std::stoi` throws or the text does not match. `stoi` is cast to
-- a `uint16_t`, `stoi_hex` to a `char`.
pub record Std : Type 0 where
  pub regex_match : Regex → Bytes → Option Groups
  pub stoi : Bytes → Option ℕ
  pub stoi_hex : Bytes → Option ℕ
  pub print : ℕ → Bytes

abbrev pub is_alnum : ℕ → Bool
is_alnum c = (leb b'0' c && leb c b'9') || (leb b'A' c && leb c b'Z') || (leb b'a' c && leb c b'z')

abbrev pub is_digit : ℕ → Bool
is_digit c = leb b'0' c && leb c b'9'

-- Letters, digits and `-_.~`.
pub is_unreserved : ℕ → Bool
is_unreserved c = is_alnum c || c == b'-' || c == b'_' || c == b'.' || c == b'~'

pub encode : Bytes → Bytes
encode [] = []
encode (c ∷ str) =
    let rest = encode str in
    if is_unreserved c
    then c ∷ rest
    else b'%' ∷ hex_char true (c / 16) ∷ hex_char true (c % 16) ∷ rest

abbrev pub plus : ℕ → ℕ
plus c = if c == b'+' then b' ' else c

-- The byte, and the text that is decoded behind the three characters, or the percent sign, and the
-- text that is decoded behind it.
abbrev pub decoded : Option ℕ → Bytes → Bytes → Bytes
decoded none skipped kept = b'%' ∷ kept
decoded (some value) skipped kept = value ∷ skipped

module _ (std : Std) where
  pub decode : Bytes → Bytes
  decode [] = []
  decode (c ∷ []) = plus c ∷ []
  decode (c ∷ a ∷ []) = plus c ∷ decode (a ∷ [])
  decode (c ∷ a ∷ b ∷ rest) =
      let skipped = decode rest in
      let kept = decode (a ∷ b ∷ rest) in
      if c == b'%' then decoded (std.stoi_hex (a ∷ b ∷ [])) skipped kept else plus c ∷ kept

-- `find` and the `substr` on both sides of what it finds.
abbrev pub behind : ℕ → Option (Bytes × Bytes) → Option (Bytes × Bytes)
behind x none = none
behind x (some (a, b)) = some (x ∷ a, b)

pub split_at : ℕ → Bytes → Option (Bytes × Bytes)
split_at c [] = none
split_at c (x ∷ xs) = let rest = split_at c xs in if x == c then some ([], xs) else behind x rest

-- The same with `rfind`.
abbrev pub here_or : ℕ → ℕ → Bytes → Option (Bytes × Bytes) → Option (Bytes × Bytes)
here_or c x xs (some (a, b)) = some (x ∷ a, b)
here_or c x xs none = if x == c then some ([], xs) else none

pub split_at_last : ℕ → Bytes → Option (Bytes × Bytes)
split_at_last c [] = none
split_at_last c (x ∷ xs) = here_or c x xs (split_at_last c xs)

abbrev pub equal_text : Bytes → Bytes → Bool
equal_text [] [] = true
equal_text (x ∷ xs) (y ∷ ys) = (x == y) && equal_text xs ys
equal_text _ _ = false

abbrev pub is_empty : Bytes → Bool
is_empty [] = true
is_empty _ = false

pub record Url : Type 0 where
  pub scheme : Bytes
  pub username : Bytes
  pub password : Bytes
  pub host : Bytes
  pub port : ℕ
  pub path : Bytes
  pub query : Bytes
  pub fragment : Bytes
  pub valid : Bool

abbrev pub no_url : Url
no_url = record {
  scheme = [];
  username = [];
  password = [];
  host = [];
  port = 0;
  path = [];
  query = [];
  fragment = [];
  valid = false;
}

abbrev pub validated : Url → Url
validated u = record u {
  valid = not (is_empty u.scheme) && (not (is_empty u.host) || equal_text u.scheme (codes "file"));
}

abbrev pub with_user : Url → Bytes × Bytes → Url
with_user u (name, password) = record u { username = name; password = password }

abbrev pub port_or_zero : Option ℕ → ℕ
port_or_zero none = 0
port_or_zero (some n) = n

abbrev pub host_port : Url → Bytes → Bytes → Option ℕ → Url
host_port u remaining host (some n) = record u { host = host; port = n }
host_port u remaining host none = record u { host = remaining; port = 0 }

module _ (std : Std) where
  -- `userinfo`: the name and the password.
  abbrev pub user_of : Bytes → Option (Bytes × Bytes) → Bytes × Bytes
  user_of userinfo (some (name, password)) = (decode std name, decode std password)
  user_of userinfo none = (decode std userinfo, [])

  -- Up to the parse of the host: the URL, and what remains.
  pub parse_userinfo : Url → Bytes → Option (Bytes × Bytes) → Url × Bytes
  parse_userinfo u authority none = (u, authority)
  parse_userinfo u authority (some (userinfo, remaining)) =
      (with_user u (user_of userinfo (split_at b':' userinfo)), remaining)

  -- What follows the bracket.
  abbrev pub bracket_port : ℕ → Bytes → ℕ
  bracket_port port [] = port
  bracket_port port (c ∷ text) = if c == b':' then port_or_zero (std.stoi text) else port

  -- `[host]:port`, without the first bracket.
  pub parse_bracket : Url → Bytes → Option (Bytes × Bytes) → Url
  parse_bracket u remaining none = record u { host = remaining }
  parse_bracket u remaining (some (host, rest)) = record u {
    host = host;
    port = bracket_port u.port rest;
  }

  -- `host:port`
  pub parse_host : Url → Bytes → Option (Bytes × Bytes) → Url
  parse_host u remaining none = record u { host = remaining }
  parse_host u remaining (some (host, text)) = host_port u remaining host (std.stoi text)

  abbrev pub parse_remaining : Url → Bytes → Url
  parse_remaining u [] = parse_host u [] none
  parse_remaining u (c ∷ rest) =
      if c == b'['
      then parse_bracket u (c ∷ rest) (split_at b']' rest)
      else parse_host u (c ∷ rest) (split_at_last b':' (c ∷ rest))

  pub parse_authority : Url → Bytes → Url
  parse_authority u authority =
      let (v, remaining) = parse_userinfo u authority (split_at b'@' authority) in
      parse_remaining v remaining

  abbrev pub parse_parts : Parts → Url
  parse_parts p =
      let u = record no_url {
        scheme = map lower_char p.scheme;
        path = p.path;
        query = p.query;
        fragment = p.fragment;
      } in
      validated (if is_empty p.authority then u else parse_authority u p.authority)

  abbrev pub parse_matches : Option Groups → Option Url
  parse_matches none = none
  parse_matches (some m) = let u = parse_parts (parts_of m) in if u.valid then some u else none

  -- `Parse` and `ParseImpl`; `none` for `nullptr`.
  pub parse : Bytes → Option Url
  parse url = if is_empty url then none else parse_matches (std.regex_match url_regex url)

abbrev pub default_ports : List (Bytes × ℕ)
default_ports =
    (codes "http", 80)
    ∷ (codes "https", 443)
    ∷ (codes "rtsp", 554)
    ∷ (codes "rtsps", 322)
    ∷ (codes "ftp", 21)
    ∷ (codes "ftps", 990)
    ∷ (codes "ws", 80)
    ∷ (codes "wss", 443)
    ∷ (codes "ssh", 22)
    ∷ (codes "telnet", 23)
    ∷ (codes "smtp", 25)
    ∷ (codes "pop3", 110)
    ∷ (codes "imap", 143)
    ∷ (codes "mysql", 3306)
    ∷ (codes "redis", 6379)
    ∷ []

-- `map::find`, with a value for a key that is not there.
abbrev pub find_or {ℓ} : {A : Type ℓ} → List (Bytes × A) → Bytes → A → A
find_or [] key default = default
find_or ((k, v) ∷ entries) key default = if equal_text k key then v else find_or entries key default

pub get_default_port : Url → ℕ
get_default_port u = find_or default_ports u.scheme 0

pub port : Url → ℕ
port u = if ltb 0 u.port then u.port else get_default_port u

pub is_secure : Url → Bool
is_secure u =
    equal_text u.scheme (codes "https")
    || equal_text u.scheme (codes "rtsps")
    || equal_text u.scheme (codes "wss")
    || equal_text u.scheme (codes "ftps")

-- `std::getline` by '&': the pieces of a text, without an empty one at its end.
abbrev pub add_first : ℕ → List Bytes → List Bytes
add_first c [] = (c ∷ []) ∷ []
add_first c (p ∷ ps) = (c ∷ p) ∷ ps

pub pieces : Bytes → List Bytes
pieces [] = []
pieces (c ∷ cs) = let rest = pieces cs in if c == b'&' then [] ∷ rest else add_first c rest

-- `params[key] = value`; the last entry of a key comes first.
abbrev pub set_param : List (Bytes × Bytes) → Bytes → Bytes → List (Bytes × Bytes)
set_param params key value = (key, value) ∷ params

abbrev pub semicolon : ℕ → ℕ
semicolon c = if c == b';' then b'&' else c

module _ (std : Std) where
  abbrev pub add_split :
      List (Bytes × Bytes) → Bytes → Option (Bytes × Bytes) → List (Bytes × Bytes)
  add_split params pair (some (key, value)) = set_param params (decode std key) (decode std value)
  add_split params pair none =
      if is_empty pair then params else set_param params (decode std pair) []

  pub add_pair : List (Bytes × Bytes) → Bytes → List (Bytes × Bytes)
  add_pair params pair = let p = map semicolon pair in add_split params p (split_at b'=' p)

  abbrev pub add_pairs : List (Bytes × Bytes) → List Bytes → List (Bytes × Bytes)
  add_pairs params [] = params
  add_pairs params (p ∷ ps) = add_pairs (add_pair params p) ps

  pub parse_query : Url → List (Bytes × Bytes)
  parse_query u = add_pairs [] (pieces u.query)

  pub get_query_param : Url → Bytes → Bytes → Bytes
  get_query_param u key default_val = find_or (parse_query u) key default_val

abbrev pub userinfo_text : Bytes → Bytes → Bytes
userinfo_text username password =
    if is_empty username
    then []
    else encode username
      ++ ((if is_empty password then [] else b':' ∷ encode password) ++ (b'@' ∷ []))

abbrev pub contains : ℕ → Bytes → Bool
contains c [] = false
contains c (x ∷ xs) = (x == c) || contains c xs

abbrev pub host_text : Bytes → Bytes
host_text host = if contains b':' host then b'[' ∷ (host ++ (b']' ∷ [])) else host

-- The port is printed if it is not the default.
abbrev pub is_shown : ℕ → ℕ → Bool
is_shown port default_port = ltb 0 port && not (port == default_port)

-- A text behind its mark, unless it is empty.
abbrev pub marked : ℕ → Bytes → Bytes
marked mark text = if is_empty text then [] else mark ∷ text

module _ (std : Std) where
  abbrev pub port_text : ℕ → ℕ → Bytes
  port_text port default_port = if is_shown port default_port then b':' ∷ std.print port else []

  pub to_string : Url → Bytes
  to_string u =
      if not u.valid
      then []
      else u.scheme
        ++ (codes "://"
            ++ (userinfo_text u.username u.password
                ++ (host_text u.host
                    ++ (port_text u.port (get_default_port u)
                        ++ (u.path ++ (marked b'?' u.query ++ marked b'#' u.fragment))))))
