-- ===== src/Api/Address.antt =====
-- `clientIP` of internal/api/helpers.go, with `net.SplitHostPort`.
use slim_m_relay.Prelude.{
  ℕ, ◌≡◌, refl, sym, ◌∙◌, ap, Bool, true, false, not, ◌&&◌, ◌||◌, Option, none, some, [], ◌∷◌, ◌++◌,
  append-nil, append_assoc, arith, any, ◌==◌, if◌then◌else◌, Bool-cases, inl, inr,
}
use slim_m_relay.Text.{Str, codes, trim_space, after_last}
use slim_m_relay.Config.{Config}

abbrev pub has_byte : ℕ → Str → Bool
has_byte b s = any (λ c. c == b) s

-- the text before the first `b` and the text behind it
unfoldable pub cut_at : ℕ → Str → Option (Str × Str)
cut_at b [] = none
cut_at b (c ∷ s) =
    if c == b
    then some ([], s)
    else elim (cut_at b s) [ none ↦ none | some (before, after) ↦ some (c ∷ before, after) ]

-- `host:port`: one colon, and no bracket
abbrev pub split_plain : Str → Option (Str × Str) → Option Str
split_plain s none = none
split_plain s (some (host, port)) =
    if has_byte b':' port || (has_byte b'[' s || has_byte b']' s) then none else some host

-- `[host]:port`, behind the first bracket: the port has no colon, and no bracket is left over
abbrev pub split_bracketed : Str → Option (Str × Str) → Option Str
split_bracketed rest none = none
split_bracketed rest (some (host, [])) = none
split_bracketed rest (some (host, c ∷ port)) =
    if c == b':' && not (has_byte b':' port || (has_byte b'[' rest || has_byte b']' port))
    then some host
    else none

-- the host that `net.SplitHostPort` finds; `none` is its error
unfoldable pub split_host_port : Str → Option Str
unfolding cut_at
split_host_port [] = none
split_host_port (c ∷ s) =
    if c == b'['
    then split_bracketed s (cut_at b']' s)
    else split_plain (c ∷ s) (cut_at b':' (c ∷ s))

split_host_port_samples :
    (split_host_port (codes "10.0.0.1:80") ≡ some (codes "10.0.0.1"))
    × (split_host_port (codes "[::1]:80") ≡ some (codes "::1"))
    × (split_host_port (codes "::1") ≡ none)
    × (split_host_port (codes "[::1]") ≡ none)
    × (split_host_port (codes ":80") ≡ some [])
unfolding split_host_port
split_host_port_samples = (refl, refl, refl, refl, refl)

abbrev pub peer : Str → Option Str → Str
peer remote none = remote
peer remote (some host) = host

abbrev pub forwarded : Str → Str → Str
forwarded remote [] = peer remote (split_host_port remote)
forwarded remote (c ∷ xff) = trim_space (after_last b',' [] (c ∷ xff))

-- `remote` is the connection's address, and `xff` the X-Forwarded-For header, empty if there is none
unfoldable pub client_ip : Config → Str → Str → Str
unfolding split_host_port trim_space after_last
client_ip cfg remote xff =
    if cfg.trust_proxy then forwarded remote xff else peer remote (split_host_port remote)

after_last-whole :
    (sep : ℕ) (part back : Str)
    → has_byte sep back ≡ false
    → after_last sep part back ≡ part ++ back
unfolding after_last
after_last-whole sep part [] h = sym (append-nil part)
after_last-whole sep part (c ∷ back) h =
    let (other, more) = all_differ sep c back h in
    rw other (after_last-whole sep (part ++ c ∷ []) back more ∙ append_assoc part (c ∷ []) back)
  where
    all_differ :
        (sep c : ℕ) (back : Str)
        → has_byte sep (c ∷ back) ≡ false
        → ((c == sep) ≡ false) × (has_byte sep back ≡ false)
    all_differ sep c back h = elim (Bool-cases (c == sep)) [
      | inl same ↦ absurd (let q = rw same at h in cc)
      | inr other ↦ (other, rw other at h)
    ]

after_last-append :
    (sep : ℕ) (part front back : Str)
    → has_byte sep back ≡ false
    → after_last sep part (front ++ sep ∷ back) ≡ back
unfolding after_last
after_last-append sep part [] back h =
    let same : (sep == sep) ≡ true = ground arith in
    rw (after_last, same) (after_last-whole sep [] back h)
after_last-append sep part (c ∷ front) back h =
    after_last-append sep (if c == sep then [] else part ++ c ∷ []) front back h

forwarded-hop :
    (remote front hop : Str)
    → has_byte b',' hop ≡ false
    → forwarded remote (front ++ b',' ∷ hop) ≡ trim_space hop
forwarded-hop remote [] hop h = ap trim_space (after_last-append b',' [] [] hop h)
forwarded-hop remote (c ∷ front) hop h = ap trim_space (after_last-append b',' [] (c ∷ front) hop h)

-- A caller cannot choose the address that its registrations are counted under. Behind a trusted proxy
-- it is the last entry of X-Forwarded-For, without a comma, which the proxy wrote, whatever stands
-- before the comma in front of it; without
-- one it is the same as without the header.
pub client_ip-forwarded :
    (cfg : Config) (remote front hop : Str)
    → has_byte b',' hop ≡ false
    → client_ip cfg remote (front ++ b',' ∷ hop)
      ≡ (if cfg.trust_proxy then trim_space hop else client_ip cfg remote [])
unfolding client_ip
client_ip-forwarded cfg remote front hop h = elim (Bool-cases cfg.trust_proxy) [
  | inl trusted ↦ rw trusted (forwarded-hop remote front hop h)
  | inr direct ↦ rw direct refl
]
