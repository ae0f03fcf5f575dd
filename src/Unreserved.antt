-- ===== src/Unreserved.antt =====
-- src/utilities.c: which texts are made up of unreserved characters only.
pub mod Class
mod Tests
use feng.Base.{
  ℕ, Bool, true, false, ◌&&◌, ◌||◌, not, Option, none, some, List, [], ◌∷◌, ltb, ◌==◌,
  if◌then◌else◌,
}
use feng.Base.Text.{Text}

-- The table `unreserved_char`: the characters at which it is true, in its order.
abbrev unreserved_chars : Text
unreserved_chars =
    48 ∷ 49 ∷ 50 ∷ 51 ∷ 52 ∷ 53 ∷ 54 ∷ 55 ∷ 56 ∷ 57 ∷ 97 ∷ 98 ∷ 99 ∷ 100 ∷ 101 ∷ 102 ∷ 103 ∷ 104
    ∷ 105 ∷ 106 ∷ 107 ∷ 108 ∷ 109 ∷ 110 ∷ 111 ∷ 112 ∷ 113 ∷ 114 ∷ 115 ∷ 116 ∷ 117 ∷ 118 ∷ 119 ∷ 120
    ∷ 121 ∷ 122 ∷ 65 ∷ 66 ∷ 67 ∷ 68 ∷ 69 ∷ 70 ∷ 71 ∷ 72 ∷ 73 ∷ 74 ∷ 75 ∷ 76 ∷ 77 ∷ 78 ∷ 79 ∷ 80 ∷ 81
    ∷ 82 ∷ 83 ∷ 84 ∷ 85 ∷ 86 ∷ 87 ∷ 88 ∷ 89 ∷ 90 ∷ 45 ∷ 46 ∷ 95 ∷ 126 ∷ []

abbrev listed : Text → ℕ → Bool
listed [] c = false
listed (d ∷ cs) c = (c == d) || listed cs c

unfoldable pub unreserved_char : ℕ → Bool
unreserved_char c = listed unreserved_chars c

-- The loop over the bytes.
unfoldable pub all_unreserved : Text → Bool
unfolding unreserved_char
all_unreserved [] = true
all_unreserved (c ∷ text) = not (ltb 127 c || not (unreserved_char c)) && all_unreserved text

-- `feng_str_is_unreserved`; NULL is not.
unfoldable pub feng_str_is_unreserved : Option Text → Bool
unfolding all_unreserved
feng_str_is_unreserved none = false
feng_str_is_unreserved (some text) = all_unreserved text
