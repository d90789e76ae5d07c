-- ===== src/Net/RateLimit/Guards/Keys.antt =====
-- The keys of the three dimensions are told apart, and so are the identifiers in one dimension.
use Prim.Native.String.{◌++◌ as ◌+++◌, [], ◌∷◌}
use Prim.Native.String.append.{cons}
use Prim.Native.Char.{code}
use text.Mathlib.TextLemmas.{append_cancel_left, append_cancel_right}
use cherry_wiki.Base.{ℕ, zero, suc, String, ◌≡◌, ◌≢◌, refl, ap, sym, ◌∙◌, arith}
use cherry_wiki.Net.RateLimit.Guards.{global_key, ip_key, space_key}

abbrev code_at : ℕ → String → ℕ
code_at n [] = 0
code_at zero (c ∷ s) = code c
code_at (suc n) (c ∷ s) = code_at n s

code_at-append : (n k : ℕ) (s t : String) → code_at n s ≡ suc k → code_at n (s +++ t) ≡ suc k
code_at-append n k [] t e = absurd (omega arith)
code_at-append zero k (c ∷ s) t e = ap (code_at 0) (cons c s t) ∙ e
code_at-append (suc n) k (c ∷ s) t e = ap (code_at (suc n)) (cons c s t) ∙ code_at-append n k s t e

-- The first letter of the dimension's name stands at position 17: g, i or s.
pub global-ne-ip : (a : String) → global_key ≢ ip_key a
global-ne-ip a e =
    let ip = code_at-append 17 104 "bridge:ratelimit:ip:" (a +++ ":60:100") refl in
    let both = ap (code_at 17) e ∙ ip in absurd (omega arith)

pub global-ne-space : (a : String) → global_key ≢ space_key a
global-ne-space a e =
    let space = code_at-append 17 114 "bridge:ratelimit:space:" (a +++ ":60:200") refl in
    let both = ap (code_at 17) e ∙ space in absurd (omega arith)

pub ip-ne-space : (a b : String) → ip_key a ≢ space_key b
ip-ne-space a b e =
    let ip = code_at-append 17 104 "bridge:ratelimit:ip:" (a +++ ":60:100") refl in
    let space = code_at-append 17 114 "bridge:ratelimit:space:" (b +++ ":60:200") refl in
    let both = sym ip ∙ (ap (code_at 17) e ∙ space) in absurd (omega arith)

pub ip_key-injective : (a b : String) → ip_key a ≡ ip_key b → a ≡ b
ip_key-injective a b e =
    append_cancel_right a b ":60:100" (append_cancel_left "bridge:ratelimit:ip:" _ _ e)

pub space_key-injective : (a b : String) → space_key a ≡ space_key b → a ≡ b
space_key-injective a b e =
    append_cancel_right a b ":60:200" (append_cancel_left "bridge:ratelimit:space:" _ _ e)
