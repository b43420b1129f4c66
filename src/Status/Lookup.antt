-- ===== src/Status/Lookup.antt =====
-- What the table of display texts of src/common/status.cpp answers.
use judge_system.Base.{◌≡◌, refl, Option, none, some, List, [], ◌∷◌, String, str_eq, if◌then◌else◌}
use judge_system.Status.{Status, status_string, get_display_message}

-- The verdict that a text stands for, by a search of the same table.
unfoldable pub read_back : String → List (Status × String) → Option Status
read_back text [] = none
read_back text ((k, t) ∷ rest) = if str_eq t text then some k else read_back text rest

display_text :
    (s : Status)
    → (t : String) × (get_display_message s ≡ some t) × (read_back t status_string ≡ some s)
unfolding get_display_message read_back
display_text Status.pending = (_, refl, refl)
display_text s = (_, refl, refl)

-- Every verdict has a display text (`at` never throws), and the text determines the verdict.
get_display_message-read_back :
    (s : Status)
    → (t : String) × (get_display_message s ≡ some t) × (read_back t status_string ≡ some s)
get_display_message-read_back s = display_text s
