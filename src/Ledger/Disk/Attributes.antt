-- ===== src/Ledger/Disk/Attributes.antt =====
-- `ensure_union_merge_attribute`: after it the attribute is there, and nothing that was there goes.
use mathlib.Core.List.{append_assoc, append-nil, map-append}
use musts.Base.{◌≡◌, refl, ◌∙◌, ap, Bool, true, ◌||◌, [], ◌∷◌, ◌++◌, arith, Bool-cases, inl, inr}
use musts.Base.Order.{nat_ord}
use musts.Base.Text.{
  Text, lines, lines-append, cut_last, ends_with_byte, is_utf8, trim, starts_with, contains_text,
}
use musts.Base.Lists.{any, any-append, filter, filter-append}
use musts.Ledger.Disk.{
  MustsDir, FileState, absent, unreadable, contents, gitattributes_body, separator,
  mentions_lock_file, ensure_union_merge_attribute,
}

mentions-body : mentions_lock_file gitattributes_body ≡ true
unfolding mentions_lock_file gitattributes_body any filter lines trim starts_with contains_text
mentions-body = refl

||-true : (a : Bool) → (a || true) ≡ true
||-true a = ground arith

mentions-append :
    (x y : Text) → mentions_lock_file y ≡ true → mentions_lock_file (x ++ 10 ∷ y) ≡ true
unfolding mentions_lock_file
mentions-append x y h = rw (lines-append x y, map-append, filter-append, any-append, h) (||-true _)

-- after the separator the managed lines begin a line of their own
mentions-separated :
    (body y : Text)
    → mentions_lock_file y ≡ true
    → mentions_lock_file (body ++ separator body ++ y) ≡ true
mentions-separated [] y h = h
mentions-separated (c ∷ s) y h = elim (Bool-cases (ends_with_byte 10 (c ∷ s))) [
  | inl e ↦
      let (t, cut) = cut_last 10 (c ∷ s) e in
      rw e (ap mentions_lock_file (ended t cut) ∙ mentions-append t y h)
  | inr e ↦
      rw e (ap mentions_lock_file (append_assoc (c ∷ s) (10 ∷ []) y) ∙ mentions-append (c ∷ s) y h)
]
  where
    ended : (t : Text) → c ∷ s ≡ t ++ 10 ∷ [] → (c ∷ s) ++ [] ++ y ≡ t ++ 10 ∷ y
    ended t cut = ap (λ (z : Text). z ++ y) (append-nil (c ∷ s) ∙ cut) ∙ append_assoc t (10 ∷ []) y

-- Once the file can be read and written, it mentions the ledger, after all that it held before.
pub ensure-mentions :
    (dir : MustsDir) (body : Text)
    → dir.gitattributes ≡ contents body
    → dir.gitattributes_writable ≡ true
    → is_utf8 body ≡ true
    → (rest : Text) × ((ensure_union_merge_attribute dir).gitattributes ≡ contents (body ++ rest))
      × (mentions_lock_file (body ++ rest) ≡ true)
unfolding ensure_union_merge_attribute
ensure-mentions dir body h w u = elim (Bool-cases (mentions_lock_file body)) [
  | inl e ↦ ([], rw (append-nil body) (ground (arith, h, e)), rw (append-nil body) e)
  | inr e ↦ (
    separator body ++ gitattributes_body,
    rw (h, u, e, w) (ap contents (append_assoc body (separator body) gitattributes_body)),
    rw (← append_assoc body (separator body) gitattributes_body)
        (mentions-separated body gitattributes_body mentions-body),
  )
]

idem_from :
    (f : FileState) (dir : MustsDir)
    → dir.gitattributes ≡ f
    → ensure_union_merge_attribute (ensure_union_merge_attribute dir)
      ≡ ensure_union_merge_attribute dir
unfolding ensure_union_merge_attribute
idem_from absent dir h = ground (arith, mentions-body)
idem_from unreadable dir h = ground arith
idem_from (contents body) dir h =
    ground (arith, mentions-separated body gitattributes_body mentions-body)

-- A second call changes nothing.
pub ensure_idem :
    (dir : MustsDir)
    → ensure_union_merge_attribute (ensure_union_merge_attribute dir)
      ≡ ensure_union_merge_attribute dir
ensure_idem dir = idem_from dir.gitattributes dir refl

pub ensure-lock_file :
    (dir : MustsDir) → (ensure_union_merge_attribute dir).lock_file ≡ dir.lock_file
unfolding ensure_union_merge_attribute
ensure-lock_file dir = ground arith
