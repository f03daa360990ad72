-- ===== src/Protocol/Redirect/Hosts.antt =====
-- api_protocol.cpp: the hosts of `redirect_target_allowed`.
use beer_tab.Common.{
  ℕ, ◌-◌, ◌≤◌, ◌<◌, ◌≡◌, refl, sym, ap, ◌∙◌, ◌⊎◌, inl, inr, [], ◌∷◌, ◌++◌, true, false, Text, ascii,
  text_eq_iff, length, take, drop, take-append-drop, length-take, ◌==◌, Bool-cases, arith,
}
use beer_tab.Protocol.Redirect.{
  until, has_byte, ends_behind, https, authority, host_of, redirect_target_allowed,
}

-- Empty, or beginning with the byte `c`.
abbrev pub IsCut : ℕ → Text → Type 0
IsCut c [] = Unit {0}
IsCut c (x ∷ s) = x ≡ c

-- A text split before its first `c`.
pub record Cut (c : ℕ) (s front : Text) : Type 0 where
  pub behind : Text
  pub whole : s ≡ front ++ behind
  pub at_cut : IsCut c behind
  pub none_before : has_byte c front ≡ false

until-Cut : (c : ℕ) (s : Text) → Cut c s (until c s)
unfolding until has_byte
until-Cut c [] = record { behind = []; whole = refl; at_cut = tt; none_before = refl }
until-Cut c (x ∷ s) = elim (Bool-cases (x == c)) [
  | inl b ↦
      rw b (record { behind = x ∷ s; whole = refl; at_cut = ground (arith, b); none_before = refl })
  | inr b ↦
      let rest = until-Cut c s in
      rw b (record {
        behind = rest.behind;
        whole = ap (λ t. x ∷ t) rest.whole;
        at_cut = rest.at_cut;
        none_before = ground (arith, b, rest.none_before);
      })
]

-- A name below a domain: a label or more in front of the suffix.
pub record Below (suffix host : Text) : Type 0 where
  pub label : Text
  pub some_label : 0 < length label
  pub joined : host ≡ label ++ suffix

ends_behind-Below : (suffix host : Text) → ends_behind suffix host ≡ true → Below suffix host
unfolding ends_behind
ends_behind-Below suffix host h = record {
  label = take (length host - length suffix) host;
  some_label = ground (arith, h, length-take (length host - length suffix) host);
  joined =
      sym (take-append-drop (length host - length suffix) host)
      ∙ ap (λ t. take (length host - length suffix) host ++ t)
          ((text_eq_iff (drop (length host - length suffix) host) suffix).0 (ground (arith, h)));
}

-- What `redirect_target_allowed` admits.
pub record IsTrusted (url : Text) : Type 0 where
  pub scheme : take 8 url ≡ https
  pub no_user : has_byte b'@' (authority url) ≡ false
  pub before_path : Cut b'/' (drop 8 url) (authority url)
  pub before_port : Cut b':' (authority url) (host_of url)
  pub short : length (host_of url) ≤ 253
  pub google :
      Below (ascii ".google.com") (host_of url)
      ⊎ Below (ascii ".googleusercontent.com") (host_of url)

suffix_of :
    (url : Text)
    → redirect_target_allowed url ≡ true
    → (ends_behind (ascii ".google.com") (host_of url) ≡ true)
      ⊎ (ends_behind (ascii ".googleusercontent.com") (host_of url) ≡ true)
unfolding redirect_target_allowed
suffix_of url h = ground arith

-- A redirect target that is allowed is an https URL with no user part, and its host, which ends
-- before the first slash and before the port, is a name below google.com or googleusercontent.com.
pub redirect_target_allowed-IsTrusted :
    (url : Text) → redirect_target_allowed url ≡ true → IsTrusted url
unfolding redirect_target_allowed
redirect_target_allowed-IsTrusted url h = record {
  scheme = (text_eq_iff (take 8 url) https).0 (ground (arith, h));
  no_user = ground (arith, h);
  before_path = until-Cut b'/' (drop 8 url);
  before_port = until-Cut b':' (authority url);
  short = ground (arith, h);
  google = elim (suffix_of url h) [
    | inl e ↦ inl (ends_behind-Below (ascii ".google.com") (host_of url) e)
    | inr e ↦ inr (ends_behind-Below (ascii ".googleusercontent.com") (host_of url) e)
  ];
}
