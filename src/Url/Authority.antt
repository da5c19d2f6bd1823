-- ===== src/Url/Authority.antt =====
-- The authority of a URL, printed and parsed.
use lmcore.Prelude.{
  ℕ, ◌^◌, ◌<◌, ◌≡◌, refl, sym, ap, ap₂, ◌∙◌, arith, Bool, true, false, if◌then◌else◌, ◌==◌, ◌||◌,
  [], ◌∷◌, ◌++◌, append_assoc, append-nil, All, All-append, Bytes, IsByte, if-both,
}
use lmcore.Url.{
  Std, Url, encode, is_unreserved, is_digit, split_at, split_at_last, is_empty, user_of, with_user,
  parse_userinfo, port_or_zero, bracket_port, parse_bracket, host_port, parse_host, parse_remaining,
  parse_authority, userinfo_text, contains, host_text, is_shown, port_text,
}
use lmcore.Url.Text.{
  Lacks, weaken, split_at_lem, split_at-none, split_at_last_lem, split_at_last-none,
}
use lmcore.Url.Codec.{IsStd, NonEmpty, is_encoded, decode-encode, encode-Lacks}

abbrev pub ends_host : ℕ → Bool
ends_host c = c == b'@' || c == b'/' || c == b'?' || c == b'#' || c == b'[' || c == b']'

Lacks-contains : (c : ℕ) (xs : Bytes) → contains c xs ≡ false → Lacks (λ x. x == c) xs
Lacks-contains c [] h = tt
Lacks-contains c (x ∷ xs) h = (ground arith, Lacks-contains c xs (ground arith))

pub host_text-Lacks :
    (test : ℕ → Bool) (host : Bytes)
    → test b'[' ≡ false
    → test b']' ≡ false
    → Lacks test host
    → Lacks test (host_text host)
host_text-Lacks test host o c h =
    if-both (Lacks test) (contains b':' host) _ _
      (λ _. (o, All-append (λ x. test x ≡ false) host (b']' ∷ []) h (c, tt))) (λ _. h)

pub port_text-Lacks :
    (std : Std)
    → IsStd std
    → (test : ℕ → Bool) (port default_port : ℕ) → test b':' ≡ false
    → ((c : ℕ) → is_digit c ≡ true → test c ≡ false)
    → Lacks test (port_text std port default_port)
port_text-Lacks std laws test port default_port colon h =
    if-both (Lacks test) (is_shown port default_port) _ _
      (λ _. (colon, weaken is_digit test (std.print port) h (laws.prints_digits port))) (λ _. tt)

pub userinfo_text-Lacks :
    (test : ℕ → Bool) (username password : Bytes)
    → test b':' ≡ false
    → test b'@' ≡ false
    → ((c : ℕ) → is_encoded c ≡ true → test c ≡ false)
    → All IsByte username
    → All IsByte password
    → Lacks test (userinfo_text username password)
userinfo_text-Lacks test username password colon at h u p =
    if-both (Lacks test) (is_empty username) _ _ (λ _. tt)
      (λ _.
        All-append (λ x. test x ≡ false) (encode username) _ (encode-Lacks test username h u)
          (All-append (λ x. test x ≡ false)
            (if is_empty password then [] else b':' ∷ encode password) (b'@' ∷ [])
            (if-both (Lacks test) (is_empty password) _ _ (λ _. tt)
              (λ _. (colon, encode-Lacks test password h p)))
            (at, tt)))

-- The name and the password are parsed from the front.
user_lem :
    (std : Std)
    → IsStd std
    → (v : Url) (username password : Bytes) (rest : Bytes) → All IsByte username
    → All IsByte password
    → NonEmpty username
    → (let text : Bytes = userinfo_text username password ++ rest in
        parse_userinfo std v text (split_at b'@' text))
      ≡ (record v { username = username; password = password }, rest)
unfolding parse_userinfo is_unreserved
user_lem std laws v [] password rest h k n = absurd n
user_lem std laws v (x ∷ xs) [] rest h k n =
    let name = x ∷ xs in
    ap (λ t. parse_userinfo std v t (split_at b'@' t)) (append_assoc (encode name) (b'@' ∷ []) rest)
    ∙ ap (parse_userinfo std v (encode name ++ (b'@' ∷ rest))) (
        split_at_lem b'@' (encode name) rest
          (encode-Lacks (λ c. c == b'@') name (λ c e. ground arith) h))
    ∙ ap (λ s. (with_user v (user_of std (encode name) s), rest))
        (split_at-none b':' (encode name)
          (encode-Lacks (λ c. c == b':') name (λ c e. ground arith) h))
    ∙ ap (λ t. (with_user v (t, []), rest)) (decode-encode std laws name h)
user_lem std laws v (x ∷ xs) (y ∷ ys) rest h k n =
    let name = x ∷ xs in
    let secret = y ∷ ys in
    let both : Bytes = encode name ++ (b':' ∷ encode secret) in
    let regroup : (encode name ++ ((b':' ∷ encode secret) ++ (b'@' ∷ []))) ++ rest
        ≡ both ++ (b'@' ∷ rest) =
      ap (λ t. t ++ rest) (sym (append_assoc (encode name) (b':' ∷ encode secret) (b'@' ∷ [])))
      ∙ append_assoc both (b'@' ∷ []) rest in
    let no_at : Lacks (λ c. c == b'@') both =
      All-append (λ c. (c == b'@') ≡ false) (encode name) (b':' ∷ encode secret)
        (encode-Lacks (λ c. c == b'@') name (λ c e. ground arith) h)
        (refl, encode-Lacks (λ c. c == b'@') secret (λ c e. ground arith) k) in
    ap (λ t. parse_userinfo std v t (split_at b'@' t)) regroup
    ∙ ap (parse_userinfo std v (both ++ (b'@' ∷ rest))) (split_at_lem b'@' both rest no_at)
    ∙ ap (λ s. (with_user v (user_of std both s), rest))
        (split_at_lem b':' (encode name) (encode secret)
          (encode-Lacks (λ c. c == b':') name (λ c e. ground arith) h))
    ∙ ap₂ (λ s t. (with_user v (s, t), rest)) (decode-encode std laws name h)
        (decode-encode std laws secret k)

-- The port that is read back, where none is 0.
abbrev pub shown_port : ℕ → ℕ → ℕ
shown_port port default_port = if is_shown port default_port then port else 0

bracket_lem :
    (std : Std)
    → IsStd std
    → (v : Url) (host : Bytes) (port default_port : ℕ) → port < 2 ^ 16
    → v.port ≡ 0
    → Lacks ends_host host
    → (let rest : Bytes = (host ++ (b']' ∷ [])) ++ port_text std port default_port in
        parse_bracket std v (b'[' ∷ rest) (split_at b']' rest))
      ≡ record v { host = host; port = shown_port port default_port }
unfolding parse_bracket
bracket_lem std laws v host port default_port small z h =
    let tail = port_text std port default_port in
    ap (λ t. parse_bracket std v (b'[' ∷ t) (split_at b']' t)) (append_assoc host (b']' ∷ []) tail)
    ∙ ap (parse_bracket std v (b'[' ∷ (host ++ (b']' ∷ tail))))
        (split_at_lem b']' host tail (narrow host h))
    ∙ ap (λ p. record v { host = host; port = p }) (read (is_shown port default_port))
  where
    narrow : (xs : Bytes) → Lacks ends_host xs → Lacks (λ c. c == b']') xs
    narrow [] h = tt
    narrow (x ∷ xs) h = (ground (arith, h.0), narrow xs h.1)

    read :
        (b : Bool)
        → bracket_port std v.port (if b then b':' ∷ std.print port else [])
          ≡ (if b then port else 0)
    read true = ap port_or_zero (laws.reads_port port small)
    read false = z

host_lem :
    (std : Std)
    → IsStd std
    → (v : Url) (host : Bytes) (port default_port : ℕ) → port < 2 ^ 16
    → v.port ≡ 0
    → Lacks (λ c. c == b':') host
    → (let text : Bytes = host ++ port_text std port default_port in
        parse_host std v text (split_at_last b':' text))
      ≡ record v { host = host; port = shown_port port default_port }
unfolding parse_host
host_lem std laws v host port default_port small z h = read (is_shown port default_port)
  where
    no_colon : Lacks (λ c. c == b':') (std.print port)
    no_colon =
        weaken is_digit (λ c. c == b':') (std.print port) (λ c e. ground arith)
          (laws.prints_digits port)

    read :
        (b : Bool)
        → (let text : Bytes = host ++ (if b then b':' ∷ std.print port else []) in
            parse_host std v text (split_at_last b':' text))
          ≡ record v { host = host; port = (if b then port else 0) }
    read true =
        ap (parse_host std v (host ++ (b':' ∷ std.print port)))
          (split_at_last_lem b':' host (std.print port) no_colon)
        ∙ ap (host_port v (host ++ (b':' ∷ std.print port)) host) (laws.reads_port port small)
    read false =
        ap (λ t. parse_host std v t (split_at_last b':' t)) (append-nil host)
        ∙ ap (parse_host std v host) (split_at_last-none b':' host h)
        ∙ ap (λ p. record v { host = host; port = p }) z

pub remaining_lem :
    (std : Std)
    → IsStd std
    → (v : Url) (host : Bytes) (port default_port : ℕ) → port < 2 ^ 16
    → v.port ≡ 0
    → NonEmpty host
    → Lacks ends_host host
    → parse_remaining std v (host_text host ++ port_text std port default_port)
      ≡ record v { host = host; port = shown_port port default_port }
remaining_lem std laws v [] port default_port small z n h = absurd n
remaining_lem std laws v (x ∷ xs) port default_port small z n h =
    let host = x ∷ xs in
    let tail = port_text std port default_port in
    if-both
      (λ (t : Bytes).
        parse_remaining std v (t ++ tail)
        ≡ record v { host = host; port = shown_port port default_port })
      (contains b':' host) (b'[' ∷ (host ++ (b']' ∷ []))) host
      (λ _. bracket_lem std laws v host port default_port small z h)
      (λ e.
        let plain : (x == b'[') ≡ false = ground (arith, h.0) in
        rw plain (host_lem std laws v host port default_port small z (Lacks-contains b':' host e)))

-- A password stands behind a name.
abbrev pub IsNamed : Bytes → Bytes → Type 0
IsNamed [] password = password ≡ []
IsNamed (x ∷ xs) password = Unit

-- A host's name has none of the characters that delimit it.
no_at : (c : ℕ) → ends_host c ≡ false → (c == b'@') ≡ false
no_at c h = ground arith

narrow_at : (xs : Bytes) → Lacks ends_host xs → Lacks (λ c. c == b'@') xs
narrow_at [] h = tt
narrow_at (x ∷ xs) h = (no_at x h.0, narrow_at xs h.1)

pub authority_lem :
    (std : Std)
    → IsStd std
    → (v : Url) (username password host : Bytes) (port default_port : ℕ) → v.username ≡ []
    → v.password ≡ []
    → v.port ≡ 0
    → All IsByte username
    → All IsByte password
    → IsNamed username password
    → port < 2 ^ 16
    → NonEmpty host
    → Lacks ends_host host
    → parse_authority std v
        (userinfo_text username password ++ (host_text host ++ port_text std port default_port))
      ≡ record v {
        username = username;
        password = password;
        host = host;
        port = shown_port port default_port;
      }
unfolding parse_authority parse_userinfo
authority_lem std laws v [] password host port default_port vu vp z h k named small n lacks =
    let text : Bytes = host_text host ++ port_text std port default_port in
    let absent : Lacks (λ c. c == b'@') text =
      All-append (λ c. (c == b'@') ≡ false) (host_text host) (port_text std port default_port)
        (host_text-Lacks (λ c. c == b'@') host refl refl (narrow_at host lacks))
        (port_text-Lacks std laws (λ c. c == b'@') port default_port refl (λ c e. ground arith)) in
    ap (λ s. (let r = parse_userinfo std v text s in parse_remaining std r.0 r.1))
      (split_at-none b'@' text absent)
    ∙ remaining_lem std laws v host port default_port small z n lacks
    ∙ ap₂
        (λ a b. record v {
          username = a;
          password = b;
          host = host;
          port = shown_port port default_port;
        })
        vu (vp ∙ sym named)
authority_lem std laws v (x ∷ xs) password host port default_port vu vp z h k named small n lacks =
    let rest = host_text host ++ port_text std port default_port in
    ap (λ (r : Url × Bytes). parse_remaining std r.0 r.1)
      (user_lem std laws v (x ∷ xs) password rest h k tt)
    ∙ remaining_lem std laws (record v { username = x ∷ xs; password = password }) host port
        default_port small z n lacks
