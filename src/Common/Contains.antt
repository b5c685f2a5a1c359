-- ===== src/Common/Contains.antt =====
-- Where a text contains another.
use Prim.Native.String.{String}
use mathlib.Core.Path.{◌≡◌, refl, ◌∙◌, ap}
use mathlib.Core.Bool.{true}
use native.Mathlib.Omega.{arith}
use text.Mathlib.TextLemmas.{nil-append, cons-append}
use claimward_vpn_client.Common.Text.{◌+++◌, is_prefix, contains}

is_prefix-append : (p t : String) → is_prefix p (p +++ t) ≡ true
unfolding is_prefix
is_prefix-append String.[] t = refl
is_prefix-append (String.◌∷◌ c p) t =
    ap (is_prefix (String.◌∷◌ c p)) (cons-append c p t) ∙ ground (arith, is_prefix-append p t)

contains_prefix : (t p : String) → is_prefix p t ≡ true → contains t p ≡ true
unfolding contains
contains_prefix String.[] p h = h
contains_prefix (String.◌∷◌ c t) p h = rw h refl

-- A text that one part contains is contained in the whole.
pub contains_right : (a t p : String) → contains t p ≡ true → contains (a +++ t) p ≡ true
unfolding contains
contains_right String.[] t p h = ap (λ x. contains x p) (nil-append t) ∙ h
contains_right (String.◌∷◌ c a) t p h =
    ap (λ x. contains x p) (cons-append c a t) ∙ ground (arith, contains_right a t p h)

pub contains_here : (p t : String) → contains (p +++ t) p ≡ true
contains_here p t = contains_prefix (p +++ t) p (is_prefix-append p t)
