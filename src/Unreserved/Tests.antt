-- ===== src/Unreserved/Tests.antt =====
-- A track's name.
use feng.Base.{◌≡◌, some, [], ◌∷◌}
use feng.Unreserved.{feng_str_is_unreserved}
use feng.Unreserved.Class.{every, feng_str_is_unreserved_lem}

-- "a-1/".
feng_str_is_unreserved_example :
    feng_str_is_unreserved (some (97 ∷ 45 ∷ 49 ∷ 47 ∷ [])) ≡ every (97 ∷ 45 ∷ 49 ∷ 47 ∷ [])
feng_str_is_unreserved_example = feng_str_is_unreserved_lem (97 ∷ 45 ∷ 49 ∷ 47 ∷ [])
