-- ===== src/Certkit/Pki/Uris.antt =====
-- certkit/pki/pki.go: the URI names of certificates.
use mathlib.Core.Path.{subst}
use albstractions.Prelude.{◌≤◌, ◌≡◌, refl, inr, true, List, [], ◌∷◌, arith, nat_comparable, All}
use albstractions.Certkit.Keyloader.Slices.{Bytes}
use albstractions.Certkit.Pki.Results.{bind-inr}
use albstractions.Certkit.Pki.{World, is_ascii, same_bytes, resolve_uri, resolve_uris}

pub same_bytes-eq : (s t : Bytes) → same_bytes s t ≡ true → s ≡ t
unfolding same_bytes
same_bytes-eq [] [] h = refl
same_bytes-eq [] (d ∷ t) h = absurd (cc)
same_bytes-eq (c ∷ s) [] h = absurd (cc)
same_bytes-eq (c ∷ s) (d ∷ t) h = let same = same_bytes-eq s t in ground (arith, same)

abbrev pub IsAscii : Bytes → Type 0
IsAscii s = All (λ c. c ≤ 127) s

pub is_ascii-IsAscii : (s : Bytes) → is_ascii s ≡ true → IsAscii s
unfolding is_ascii
is_ascii-IsAscii [] h = tt
is_ascii-IsAscii (c ∷ s) h = (ground arith, is_ascii-IsAscii s (ground arith))

module _ {U K : Type 0} (w : World U K) where
  -- Each URL reads back as the name that was asked for, which is absolute and ASCII.
  abbrev pub Reproduces : List Bytes → List U → Type 0
  Reproduces [] [] = Unit
  Reproduces (raw ∷ raws) (u ∷ us) =
      (w.url_string u ≡ raw) × (w.is_abs u ≡ true) × IsAscii raw × Reproduces raws us
  Reproduces [] (u ∷ us) = ⊥
  Reproduces (raw ∷ raws) [] = ⊥

  resolve_uri-normal :
      (raw : Bytes) (u : U)
      → resolve_uri w raw ≡ inr u
      → (w.url_string u ≡ raw) × (w.is_abs u ≡ true) × IsAscii raw
  unfolding resolve_uri
  resolve_uri-normal raw u e =
      let (u', parsed, e') = bind-inr _ _ u e in
      ground (arith, same_bytes-eq (w.url_string u') raw, is_ascii-IsAscii raw)

  -- The URIs of an issued certificate are those asked for, in their order, each of them byte for
  -- byte: one that is not absolute, not ASCII, or that the URL would not reproduce is refused.
  pub resolve_uris-Reproduces :
      (raws : List Bytes) (us : List U) → resolve_uris w raws ≡ inr us → Reproduces raws us
  unfolding resolve_uris
  resolve_uris-Reproduces [] [] e = tt
  resolve_uris-Reproduces [] (u ∷ us) e = absurd (cc)
  resolve_uris-Reproduces (raw ∷ raws) us e =
      let (u, one, e') = bind-inr _ _ us e in
      let (us', rest, e'') = bind-inr _ _ us e' in
      let found : u ∷ us' ≡ us = cc in
      let (back, abs, ascii) = resolve_uri-normal raw u one in
      subst (Reproduces (raw ∷ raws)) found
        (back, abs, ascii, resolve_uris-Reproduces raws us' rest)
