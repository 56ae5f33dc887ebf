-- ===== src/Base/Words.antt =====
-- `\w` of Python's `re`: the letters and digits of Unicode, and `_`. The tables are exact for Latin, Greek
-- and Cyrillic and from the general punctuation to the CJK symbols, as of Unicode 14.0.0; between them and
-- in the later scripts every character of a block is taken for a letter, and no symbol block is.
use rfq_workflow_agent.Base.{
  ℕ, Bool, true, false, ◌||◌, ◌&&◌, ◌==◌, List, [], ◌∷◌, leb, ltb, if◌then◌else◌,
}

-- The first and the last of each run of letters and digits from 128 to 1327.
abbrev near_ranges : List (ℕ × ℕ)
near_ranges =
    (170, 170)
    ∷ (178, 179)
    ∷ (181, 181)
    ∷ (185, 186)
    ∷ (188, 190)
    ∷ (192, 214)
    ∷ (216, 246)
    ∷ (248, 705)
    ∷ (710, 721)
    ∷ (736, 740)
    ∷ (748, 748)
    ∷ (750, 750)
    ∷ (880, 884)
    ∷ (886, 887)
    ∷ (890, 893)
    ∷ (895, 895)
    ∷ (902, 902)
    ∷ (904, 906)
    ∷ (908, 908)
    ∷ (910, 929)
    ∷ (931, 1013)
    ∷ (1015, 1153)
    ∷ (1162, 1327)
    ∷ []

-- The same from 8192 to 13311.
abbrev middle_ranges : List (ℕ × ℕ)
middle_ranges =
    (8304, 8305)
    ∷ (8308, 8313)
    ∷ (8319, 8329)
    ∷ (8336, 8348)
    ∷ (8450, 8450)
    ∷ (8455, 8455)
    ∷ (8458, 8467)
    ∷ (8469, 8469)
    ∷ (8473, 8477)
    ∷ (8484, 8484)
    ∷ (8486, 8486)
    ∷ (8488, 8488)
    ∷ (8490, 8493)
    ∷ (8495, 8505)
    ∷ (8508, 8511)
    ∷ (8517, 8521)
    ∷ (8526, 8526)
    ∷ (8528, 8585)
    ∷ (9312, 9371)
    ∷ (9450, 9471)
    ∷ (10102, 10131)
    ∷ (11264, 11492)
    ∷ (11499, 11502)
    ∷ (11506, 11507)
    ∷ (11517, 11517)
    ∷ (11520, 11557)
    ∷ (11559, 11559)
    ∷ (11565, 11565)
    ∷ (11568, 11623)
    ∷ (11631, 11631)
    ∷ (11648, 11670)
    ∷ (11680, 11686)
    ∷ (11688, 11694)
    ∷ (11696, 11702)
    ∷ (11704, 11710)
    ∷ (11712, 11718)
    ∷ (11720, 11726)
    ∷ (11728, 11734)
    ∷ (11736, 11742)
    ∷ (11823, 11823)
    ∷ (12293, 12295)
    ∷ (12321, 12329)
    ∷ (12337, 12341)
    ∷ (12344, 12348)
    ∷ (12353, 12438)
    ∷ (12445, 12447)
    ∷ (12449, 12538)
    ∷ (12540, 12543)
    ∷ (12549, 12591)
    ∷ (12593, 12686)
    ∷ (12690, 12693)
    ∷ (12704, 12735)
    ∷ (12784, 12799)
    ∷ (12832, 12841)
    ∷ (12872, 12879)
    ∷ (12881, 12895)
    ∷ (12928, 12937)
    ∷ (12977, 12991)
    ∷ []

-- The scripts of the rest of the first plane, and its wide letters and digits.
abbrev far_ranges : List (ℕ × ℕ)
far_ranges =
    (13312, 55295)
    ∷ (63744, 64255)
    ∷ (64256, 64335)
    ∷ (64336, 65019)
    ∷ (65136, 65276)
    ∷ (65296, 65305)
    ∷ (65313, 65338)
    ∷ (65345, 65370)
    ∷ (65382, 65470)
    ∷ (65474, 65479)
    ∷ (65482, 65487)
    ∷ (65490, 65495)
    ∷ (65498, 65500)
    ∷ []

unfoldable pub in_ranges : ℕ → List (ℕ × ℕ) → Bool
in_ranges c [] = false
in_ranges c ((first, last) ∷ rest) = (leb first c && leb c last) || in_ranges c rest

-- The letters and digits beyond ASCII.
unfoldable pub is_letter_beyond : ℕ → Bool
unfolding in_ranges
is_letter_beyond c =
    if ltb c 1328
    then in_ranges c near_ranges
    else if ltb c 8192
    then true
    else if ltb c 13312
    then in_ranges c middle_ranges
    else if ltb c 65536
    then in_ranges c far_ranges
    else (leb 65536 c && leb c 118783) || (leb 131072 c && leb c 201546)

-- Whether `\w` matches a character.
abbrev pub is_word : ℕ → Bool
is_word c =
    (leb b'0' c && leb c b'9')
    || (leb b'a' c && leb c b'z')
    || (leb b'A' c && leb c b'Z')
    || c == b'_'
    || (leb 128 c && is_letter_beyond c)
