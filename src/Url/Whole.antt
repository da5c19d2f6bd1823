-- ===== src/Url/Whole.antt =====
-- A URL, printed and parsed.
use lmcore.Prelude.{
  ℕ, ◌^◌, ◌<◌, ◌≡◌, refl, sym, ap, ap₂, ◌∙◌, arith, true, false, if◌then◌else◌, ltb, ◌||◌, ◌&&◌,
  not, [], ◌∷◌, ◌++◌, map, append_assoc, none, some, All, All-append, Bytes, IsByte, codes, if-both,
  Bool-cases, inl, inr,
}
use lmcore.StringUtils.{lower_char}
use lmcore.Url.{
  Parts, Std, Url, is_unreserved, is_empty, contains, equal_text, userinfo_text, host_text,
  port_text, is_shown, marked, get_default_port, port, no_url, validated, parse_parts,
  parse_authority, parse_matches, parse, to_string, url_regex,
}
use lmcore.Url.Text.{Lacks}
use lmcore.Url.Codec.{
  IsStd, IsParts, NonEmpty, IsRooted, ends_scheme, ends_authority, ends_path, ends_query, is_nul,
  text_of,
}
use lmcore.Url.Expression.{match_whole-text_of}
use lmcore.Url.Authority.{
  ends_host, shown_port, IsNamed, host_text-Lacks, port_text-Lacks, userinfo_text-Lacks,
  authority_lem,
}

-- A URL that its text describes: its scheme is in lower case and not empty, nor is the host; no part
-- has a character that delimits it, nor the fragment a NUL, the path begins at the root, and there is no password without a
-- name.
pub record IsUrl (u : Url) : Type 0 where
  pub is_valid : u.valid ≡ true
  pub has_scheme : NonEmpty u.scheme
  pub scheme : Lacks ends_scheme u.scheme
  pub lower : map lower_char u.scheme ≡ u.scheme
  pub username : All IsByte u.username
  pub password : All IsByte u.password
  pub named : IsNamed u.username u.password
  pub has_host : NonEmpty u.host
  pub host : Lacks ends_host u.host
  pub small : u.port < 2 ^ 16
  pub path : Lacks ends_path u.path
  pub rooted : IsRooted u.path
  pub query : Lacks ends_query u.query
  pub fragment : Lacks is_nul u.fragment

port_lem :
    (p d : ℕ) → (if ltb 0 (shown_port p d) then shown_port p d else d) ≡ (if ltb 0 p then p else d)
port_lem p d = elim (Bool-cases (is_shown p d)) [ inl e ↦ rw e refl | inr e ↦ rw e (ground arith) ]

full : (xs : Bytes) → NonEmpty xs → is_empty xs ≡ false
full [] h = absurd h
full (x ∷ xs) h = refl

before : (xs ys : Bytes) → is_empty xs ≡ false → is_empty (xs ++ ys) ≡ false
before [] ys h = absurd (ground arith)
before (x ∷ xs) ys h = refl

behind : (xs ys : Bytes) → is_empty ys ≡ false → is_empty (xs ++ ys) ≡ false
behind [] ys h = h
behind (x ∷ xs) ys h = refl

module _ (std : Std) (laws : IsStd std) (u : Url) (v : IsUrl u) where
  -- What the expression makes of the text.
  abbrev pub authority : Bytes
  authority =
      userinfo_text u.username u.password
      ++ (host_text u.host ++ port_text std u.port (get_default_port u))

  abbrev pub parts : Parts
  parts = record {
    scheme = u.scheme;
    authority = authority;
    path = u.path;
    query = u.query;
    fragment = u.fragment;
  }

  narrow_host : (xs : Bytes) → Lacks ends_host xs → Lacks ends_authority xs
  narrow_host [] h = tt
  narrow_host (x ∷ xs) h = (ground (arith, h.0), narrow_host xs h.1)

  parts-IsParts : IsParts parts
  unfolding is_unreserved
  parts-IsParts = record {
    has_scheme = v.has_scheme;
    scheme = v.scheme;
    authority =
        All-append (λ c. ends_authority c ≡ false) (userinfo_text u.username u.password) _
          (userinfo_text-Lacks ends_authority u.username u.password refl refl (λ c e. ground arith)
            v.username v.password)
          (All-append (λ c. ends_authority c ≡ false) (host_text u.host)
            (port_text std u.port (get_default_port u))
            (host_text-Lacks ends_authority u.host refl refl (narrow_host u.host v.host))
            (port_text-Lacks std laws ends_authority u.port (get_default_port u) refl
              (λ c e. ground arith)));
    path = v.path;
    rooted = v.rooted;
    query = v.query;
    fragment = v.fragment;
  }

  to_string_lem : to_string std u ≡ text_of parts
  unfolding to_string
  to_string_lem =
      let user = userinfo_text u.username u.password in
      let host = host_text u.host in
      let number = port_text std u.port (get_default_port u) in
      let rest = u.path ++ (marked b'?' u.query ++ marked b'#' u.fragment) in
      let group : user ++ (host ++ (number ++ rest)) ≡ (user ++ (host ++ number)) ++ rest =
        ap (λ t. user ++ t) (sym (append_assoc host number rest))
        ∙ sym (append_assoc user (host ++ number) rest) in
      if-both (λ (t : Bytes). t ≡ u.scheme ++ (codes "://" ++ ((user ++ (host ++ number)) ++ rest)))
        (not u.valid) _ _ (λ e. absurd (ground (arith, v.is_valid)))
        (λ _. ap (λ t. u.scheme ++ (codes "://" ++ t)) group)

  -- The URL that is read back: its port is 0 where it was not printed.
  abbrev pub read_back : Url
  read_back = record u { port = shown_port u.port (get_default_port u) }

  base_lem :
      (base : Url)
      → base.username ≡ []
      → base.password ≡ []
      → base.port ≡ 0
      → parse_authority std base authority ≡ record base {
        username = u.username;
        password = u.password;
        host = u.host;
        port = shown_port u.port (get_default_port u);
      }
  base_lem base a b c =
      authority_lem std laws base u.username u.password u.host u.port (get_default_port u) a b c
        v.username v.password v.named v.small v.has_host v.host

  has_authority : is_empty authority ≡ false
  has_authority = behind (userinfo_text u.username u.password) _ (
      before (host_text u.host) (port_text std u.port (get_default_port u)) (
        if-both (λ (t : Bytes). is_empty t ≡ false) (contains b':' u.host) _ _ (λ _. refl)
          (λ _. full u.host v.has_host)))

  parse_parts_lem : parse_parts std parts ≡ read_back
  parse_parts_lem =
      let base = record no_url {
        scheme = map lower_char u.scheme;
        path = u.path;
        query = u.query;
        fragment = u.fragment;
      } in
      let scheme : is_empty (map lower_char u.scheme) ≡ false =
        ap is_empty v.lower ∙ full u.scheme v.has_scheme in
      let host = full u.host v.has_host in
      let good : not (is_empty (map lower_char u.scheme))
            && (not (is_empty u.host) || equal_text (map lower_char u.scheme) (codes "file"))
          ≡ u.valid =
        rw (scheme, host) (sym v.is_valid) in
      ap (λ b. validated (if b then base else parse_authority std base authority)) has_authority
      ∙ ap validated (base_lem base refl refl refl)
      ∙ ap₂
          (λ a b. record u { scheme = a; port = shown_port u.port (get_default_port u); valid = b })
          v.lower good

  -- The parser gives back each part of a URL that was printed, and the port too, unless it is the
  -- default of the scheme, which is not printed and is given by `Port` all the same.
  pub parse-to_string : (parse std (to_string std u) ≡ some read_back) × (port read_back ≡ port u)
  unfolding parse port get_default_port
  parse-to_string =
      let matched = match_whole-text_of parts parts-IsParts in
      let full_text : is_empty (text_of parts) ≡ false =
        before u.scheme _ (full u.scheme v.has_scheme) in
      (
        ap (λ t. if is_empty t then none else parse_matches std (std.regex_match url_regex t))
              to_string_lem
            ∙ ap
                (λ b.
                  if b then none else parse_matches std (std.regex_match url_regex (text_of parts)))
                full_text
            ∙ ap (parse_matches std) (laws.matches (text_of parts) ∙ matched.0)
            ∙ ap (λ (p : Parts). let w = parse_parts std p in if w.valid then some w else none)
                matched.1
            ∙ ap (λ w. if w.valid then some w else none) parse_parts_lem
            ∙ ap (λ b. if b then some read_back else none) v.is_valid,
        port_lem u.port (get_default_port u),
      )
