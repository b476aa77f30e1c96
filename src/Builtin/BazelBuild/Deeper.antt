-- ===== src/Builtin/BazelBuild/Deeper.antt =====
-- The order of scopes by depth.
use mathlib.Core.List.{append_assoc}
use musts.Base.{
  ◌≡◌, refl, ap, sym, ◌∙◌, subst, true, false, ◌⊎◌, inl, inr, [], ◌∷◌, ◌++◌, if◌then◌else◌,
  Bool-cases, arith, ℕ, suc, ◌+◌, ◌<◌,
}
use musts.Base.Order.{◌==◌, ==_iff, ==_self, nat_ord, list_ord}
use musts.Base.Text.{Text, text, strip_prefix}
use musts.Builtin.BazelBuild.{is_under, is_root, is_deeper}

-- how many bytes 47 a text has
unfoldable pub slashes : Text → ℕ
slashes [] = 0
slashes (c ∷ s) = let rest = slashes s in if c == 47 then suc rest else rest

slashes-append : (s t : Text) → slashes (s ++ t) ≡ slashes s + slashes t
unfolding slashes
slashes-append [] t = omega arith
slashes-append (c ∷ s) t = ground (arith, slashes-append s t)

is_under-split : (c b : Text) → is_under c b ≡ true → (rest : Text) × (c ≡ b ++ 47 ∷ rest)
unfolding is_under strip_prefix
is_under-split [] [] h = cc
is_under-split (x ∷ c) [] h = (c, ap (λ (y : ℕ). y ∷ c) ((==_iff x 47).0 h))
is_under-split [] (y ∷ b) h = cc
is_under-split (x ∷ c) (y ∷ b) h = elim (Bool-cases (y == x)) [
  | inr e ↦ ground (arith, e, h)
  | inl e ↦
      let (rest, p) = is_under-split c b (ground (arith, e, h)) in
      let q : y ≡ x = (==_iff y x).0 e in (rest, cc (p, q))
]

is_under-append : (b rest : Text) → is_under (b ++ 47 ∷ rest) b ≡ true
unfolding is_under strip_prefix
is_under-append [] rest = refl
is_under-append (y ∷ b) rest = ground (arith, ==_self y, is_under-append b rest)

is_under_trans : (c b a : Text) → is_under c b ≡ true → is_under b a ≡ true → is_under c a ≡ true
is_under_trans c b a h k =
    let (r, p) = is_under-split c b h in
    let (q, e) = is_under-split b a k in
    let whole : c ≡ a ++ 47 ∷ (q ++ 47 ∷ r) =
      p ∙ ap (λ x. x ++ 47 ∷ r) e ∙ append_assoc a (47 ∷ q) (47 ∷ r) in
    subst (λ x. is_under x a ≡ true) (sym whole) (is_under-append a (q ++ 47 ∷ r))

is_under-slashes : (c b : Text) → is_under c b ≡ true → slashes b < slashes c
unfolding slashes
is_under-slashes c b h =
    let (r, p) = is_under-split c b h in omega (arith, ap slashes p, slashes-append b (47 ∷ r))

is_root-slashes : (s : Text) → is_root s ≡ true → slashes s ≡ 0
unfolding is_root slashes text
is_root-slashes [] h = refl
is_root-slashes (c ∷ s) h = ap slashes ((==_iff (c ∷ s) (text "root")).0 h)

is_under-not_root : (c b : Text) → is_under c b ≡ true → is_root c ≡ false
is_under-not_root c b h = elim (Bool-cases (is_root c)) [
  | inr e ↦ e
  | inl e ↦ ground (arith, is_root-slashes c e, is_under-slashes c b h)
]

-- what `is_deeper` says
abbrev pub IsBelow : Text → Text → Type 0
IsBelow c b =
    (is_root c ≡ false) × ((is_root b ≡ true) ⊎ ((is_root b ≡ false) × (is_under c b ≡ true)))

pub is_deeper-IsBelow : (c b : Text) → is_deeper c b ≡ true → IsBelow c b
unfolding is_deeper
is_deeper-IsBelow c b h = elim (Bool-cases (is_root b)) [
  | inl r ↦ (ground (arith, h, r), inl r)
  | inr r ↦
      let u : is_under c b ≡ true = ground (arith, h, r) in (is_under-not_root c b u, inr (r, u))
]

pub IsBelow-is_deeper : (c b : Text) → IsBelow c b → is_deeper c b ≡ true
unfolding is_deeper
IsBelow-is_deeper c b h = elim (Bool-cases (c == b)) [
  | inl e ↦
      let same : c ≡ b = (==_iff c b).0 e in
      ground (arith, h, ap is_root same, ap slashes same, is_under-slashes c b)
  | inr e ↦ ground (arith, e, h)
]

pub IsBelow-trans : (c b a : Text) → IsBelow c b → IsBelow b a → IsBelow c a
IsBelow-trans c b a h k = ground (arith, h, k, is_under_trans c b a)

-- how deep a scope is
unfoldable pub level : Text → ℕ
unfolding slashes
level s = if is_root s then 0 else suc (slashes s)

pub IsBelow-level : (c b : Text) → IsBelow c b → level b < level c
unfolding level
IsBelow-level c b h = ground (arith, h, is_under-slashes c b)
