-- ===== src/Manifest/Keys/Examples.antt =====
-- Distances and suggestions on concrete keys.
use musts.Base.{◌≡◌, ◌≤◌, refl, none, some}
use musts.Base.Order.{list_ord}
use musts.Base.Lists.{filter}
use musts.Base.Text.{Text, text}
use musts.Manifest.Keys.Distance.{Edits, done, keep, insert, edit_distance-IsLeast}
use musts.Manifest.Keys.{chars, edit_distance, nearest_key, known_check_keys}

excludes-to-paths : edit_distance (text "excludes") (text "paths") ≡ 7
unfolding edit_distance text
excludes-to-paths = refl

excludes-to-exclude_paths : edit_distance (text "excludes") (text "exclude_paths") ≡ 5
unfolding edit_distance text
excludes-to-exclude_paths = refl

excludes-suggestion : nearest_key (text "excludes") known_check_keys ≡ some (text "exclude_paths")
unfolding nearest_key text filter
excludes-suggestion = refl

path-suggestion : nearest_key (text "path") known_check_keys ≡ some (text "paths")
unfolding nearest_key text filter
path-suggestion = refl

far_suggestion : nearest_key (text "notes") known_check_keys ≡ none
unfolding nearest_key text filter
far_suggestion = refl

abbrev cat : Text
cat = text "cat"

abbrev coat : Text
coat = text "coat"

cat-Edits : Edits (chars cat) (chars coat) 1
unfolding chars text
cat-Edits = keep refl (insert b'o' (keep refl (keep refl done)))

edit_distance-IsLeast_example :
    Edits (chars cat) (chars coat) (edit_distance cat coat) × (edit_distance cat coat ≤ 1)
edit_distance-IsLeast_example = edit_distance-IsLeast cat coat 1 cat-Edits
