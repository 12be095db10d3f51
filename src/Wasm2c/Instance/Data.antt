-- ===== src/Wasm2c/Instance/Data.antt =====
-- The data segments of samples/obf_1/obf_w2c.c.
use squanchy.Base.{List, [], ◌∷◌, ◌++◌, ◌≡◌, ℕ, length, refl}

-- The first part of the segment `d0`, and the rest.
abbrev pub d0_first : List ℕ
d0_first =
    45 ∷ 43 ∷ 32 ∷ 32 ∷ 32 ∷ 48 ∷ 88 ∷ 48 ∷ 120 ∷ 0 ∷ 45 ∷ 48 ∷ 88 ∷ 43 ∷ 48 ∷ 88 ∷ 32 ∷ 48 ∷ 88
    ∷ 45 ∷ 48 ∷ 120 ∷ 43 ∷ 48 ∷ 120 ∷ 32 ∷ 48 ∷ 120 ∷ 0 ∷ 110 ∷ 97 ∷ 110 ∷ 0 ∷ 105 ∷ 110 ∷ 102 ∷ 0
    ∷ 78 ∷ 65 ∷ 78 ∷ 0 ∷ 73 ∷ 78 ∷ 70 ∷ 0 ∷ 46 ∷ 0 ∷ 40 ∷ 110 ∷ 117 ∷ 108 ∷ 108 ∷ 41 ∷ 0 ∷ 72 ∷ 101
    ∷ 108 ∷ 108 ∷ 111 ∷ 32 ∷ 102 ∷ 114 ∷ 111 ∷ 109 ∷ 32 ∷ 87 ∷ 101 ∷ 98 ∷ 65 ∷ 115 ∷ 109 ∷ 33 ∷ 32
    ∷ 37 ∷ 100 ∷ 10 ∷ 0 ∷ 0 ∷ 0 ∷ 0 ∷ 25 ∷ 0 ∷ 11 ∷ 0 ∷ 25 ∷ 25 ∷ 25 ∷ 0 ∷ 0 ∷ 0 ∷ 0 ∷ 5 ∷ 0 ∷ 0 ∷ 0
    ∷ 0 ∷ 0 ∷ 0 ∷ 9 ∷ 0 ∷ 0 ∷ 0 ∷ 0 ∷ 11 ∷ 0 ∷ 0 ∷ 0 ∷ 0 ∷ 0 ∷ 0 ∷ 0 ∷ 0 ∷ 25 ∷ 0 ∷ 10 ∷ 10 ∷ 25
    ∷ 25 ∷ 25 ∷ 3 ∷ 10 ∷ 7 ∷ 0 ∷ 1 ∷ 0 ∷ 9 ∷ 11 ∷ 24 ∷ 0 ∷ 0 ∷ 9 ∷ 6 ∷ 11 ∷ 0 ∷ 0 ∷ 11 ∷ 0 ∷ 6 ∷ 25
    ∷ 0 ∷ 0 ∷ 0 ∷ 25 ∷ 25 ∷ 25 ∷ 0 ∷ 0 ∷ 0 ∷ 0 ∷ 0 ∷ 0 ∷ 0 ∷ 0 ∷ 0 ∷ 0 ∷ 0 ∷ 0 ∷ 0 ∷ 0 ∷ 0 ∷ 0 ∷ 14
    ∷ 0 ∷ 0 ∷ 0 ∷ 0 ∷ 0 ∷ 0 ∷ 0 ∷ 0 ∷ 25 ∷ 0 ∷ 11 ∷ 13 ∷ 25 ∷ 25 ∷ 25 ∷ 0 ∷ 13 ∷ 0 ∷ 0 ∷ 2 ∷ 0 ∷ 9
    ∷ 14 ∷ 0 ∷ 0 ∷ 0 ∷ 9 ∷ 0 ∷ 14 ∷ 0 ∷ 0 ∷ 14 ∷ 0 ∷ 0 ∷ 0 ∷ 0 ∷ 0 ∷ 0 ∷ 0 ∷ 0 ∷ 0 ∷ 0 ∷ 0 ∷ 0 ∷ 0
    ∷ 0 ∷ 0 ∷ 0 ∷ 0 ∷ 0 ∷ 0 ∷ 0 ∷ 0 ∷ 0 ∷ 0 ∷ 0 ∷ 0 ∷ 12 ∷ 0 ∷ 0 ∷ 0 ∷ 0 ∷ 0 ∷ 0 ∷ 0 ∷ 0 ∷ 0 ∷ 0 ∷ 0
    ∷ 19 ∷ 0 ∷ 0 ∷ 0 ∷ 0 ∷ 19 ∷ 0 ∷ 0 ∷ 0 ∷ 0 ∷ 9 ∷ 12 ∷ 0 ∷ 0 ∷ 0 ∷ 0 ∷ 0 ∷ 12 ∷ 0 ∷ 0 ∷ 12 ∷ 0 ∷ 0
    ∷ 0 ∷ 0 ∷ 0 ∷ 0 ∷ 0 ∷ 0 ∷ 0 ∷ 0 ∷ 0 ∷ 0 ∷ 0 ∷ 0 ∷ 0 ∷ 0 ∷ 0 ∷ 0 ∷ 0 ∷ 0 ∷ 0 ∷ 0 ∷ 0 ∷ 0 ∷ 0 ∷ 16
    ∷ 0 ∷ 0 ∷ 0 ∷ 0 ∷ 0 ∷ 0 ∷ 0 ∷ 0 ∷ 0 ∷ 0 ∷ 0 ∷ 15 ∷ 0 ∷ 0 ∷ 0 ∷ 4 ∷ 15 ∷ 0 ∷ 0 ∷ 0 ∷ 0 ∷ 9 ∷ 16
    ∷ 0 ∷ 0 ∷ 0 ∷ 0 ∷ 0 ∷ 16 ∷ 0 ∷ 0 ∷ 16 ∷ 0 ∷ 0 ∷ 0 ∷ 0 ∷ 0 ∷ 0 ∷ 0 ∷ 0 ∷ 0 ∷ 0 ∷ 0 ∷ 0 ∷ 0 ∷ 0
    ∷ 0 ∷ 0 ∷ 0 ∷ 0 ∷ 0 ∷ 0 ∷ 0 ∷ 0 ∷ 0 ∷ 0 ∷ 0 ∷ 18 ∷ 0 ∷ 0 ∷ 0 ∷ 0 ∷ 0 ∷ 0 ∷ 0 ∷ 0 ∷ 0 ∷ 0 ∷ 0
    ∷ 17 ∷ 0 ∷ 0 ∷ 0 ∷ 0 ∷ 17 ∷ 0 ∷ 0 ∷ 0 ∷ 0 ∷ 9 ∷ 18 ∷ 0 ∷ 0 ∷ 0 ∷ 0 ∷ 0 ∷ 18 ∷ 0 ∷ 0 ∷ 18 ∷ 0 ∷ 0
    ∷ 26 ∷ 0 ∷ 0 ∷ 0 ∷ 26 ∷ 26 ∷ 26 ∷ 0 ∷ 0 ∷ 0 ∷ 0 ∷ 0 ∷ 0 ∷ 0 ∷ 0 ∷ 0 ∷ 0 ∷ 0 ∷ 0 ∷ 0 ∷ 0 ∷ 0 ∷ 0
    ∷ 0 ∷ 0 ∷ 0 ∷ 0 ∷ 0 ∷ 0 ∷ 0 ∷ 0 ∷ 0 ∷ 26 ∷ 0 ∷ 0 ∷ 0 ∷ 26 ∷ 26 ∷ 26 ∷ 0 ∷ 0 ∷ 0 ∷ 0 ∷ 0 ∷ 0 ∷ 9
    ∷ 0 ∷ 0 ∷ 0 ∷ 0 ∷ 0 ∷ 0 ∷ 0 ∷ 0 ∷ 0 ∷ 0 ∷ 0 ∷ 0 ∷ 0 ∷ 0 ∷ 0 ∷ 0 ∷ 0 ∷ 0 ∷ 0 ∷ 0 ∷ 0 ∷ 0 ∷ 0 ∷ 0
    ∷ 0 ∷ 0 ∷ 0 ∷ 0 ∷ 0 ∷ 0 ∷ 0 ∷ 0 ∷ 0 ∷ 0 ∷ 0 ∷ 20 ∷ 0 ∷ 0 ∷ 0 ∷ 0 ∷ 0 ∷ 0 ∷ 0 ∷ 0 ∷ 0 ∷ 0 ∷ 0
    ∷ 23 ∷ 0 ∷ 0 ∷ 0 ∷ 0 ∷ 23 ∷ 0 ∷ 0 ∷ 0 ∷ 0 ∷ 9 ∷ 20 ∷ 0 ∷ 0 ∷ 0 ∷ 0 ∷ 0 ∷ 20 ∷ 0 ∷ 0 ∷ 20 ∷ 0 ∷ 0
    ∷ 0 ∷ 0 ∷ 0 ∷ 0 ∷ 0 ∷ 0 ∷ 0 ∷ 0 ∷ 0 ∷ 0 ∷ 0 ∷ 0 ∷ 0 ∷ 0 ∷ 0 ∷ 0 ∷ 0 ∷ 0 ∷ 0 ∷ 0 ∷ 0 ∷ 0 ∷ 0 ∷ 22
    ∷ 0 ∷ 0 ∷ 0 ∷ 0 ∷ 0 ∷ 0 ∷ 0 ∷ 0 ∷ 0 ∷ 0 ∷ 0 ∷ 21 ∷ 0 ∷ 0 ∷ 0 ∷ 0 ∷ 21 ∷ 0 ∷ 0 ∷ 0 ∷ 0 ∷ 9 ∷ 22
    ∷ 0 ∷ 0 ∷ 0 ∷ 0 ∷ 0 ∷ 22 ∷ 0 ∷ 0 ∷ 22 ∷ 0 ∷ 0 ∷ 48 ∷ 49 ∷ 50 ∷ 51 ∷ 52 ∷ 53 ∷ 54 ∷ 55 ∷ 56 ∷ 57
    ∷ 65 ∷ 66 ∷ 67 ∷ 68 ∷ 69 ∷ 70 ∷ 78 ∷ 111 ∷ 32 ∷ 101 ∷ 114 ∷ 114 ∷ 111 ∷ 114 ∷ 32 ∷ 105 ∷ 110
    ∷ 102 ∷ 111 ∷ 114 ∷ 109 ∷ 97 ∷ 116 ∷ 105 ∷ 111 ∷ 110 ∷ 0 ∷ 73 ∷ 108 ∷ 108 ∷ 101 ∷ 103 ∷ 97 ∷ 108
    ∷ 32 ∷ 98 ∷ 121 ∷ 116 ∷ 101 ∷ 32 ∷ 115 ∷ 101 ∷ 113 ∷ 117 ∷ 101 ∷ 110 ∷ 99 ∷ 101 ∷ 0 ∷ 68 ∷ 111
    ∷ 109 ∷ 97 ∷ 105 ∷ 110 ∷ 32 ∷ 101 ∷ 114 ∷ 114 ∷ 111 ∷ 114 ∷ 0 ∷ 82 ∷ 101 ∷ 115 ∷ 117 ∷ 108 ∷ 116
    ∷ 32 ∷ 110 ∷ 111 ∷ 116 ∷ 32 ∷ 114 ∷ 101 ∷ 112 ∷ 114 ∷ 101 ∷ 115 ∷ 101 ∷ 110 ∷ 116 ∷ 97 ∷ 98
    ∷ 108 ∷ 101 ∷ 0 ∷ 78 ∷ 111 ∷ 116 ∷ 32 ∷ 97 ∷ 32 ∷ 116 ∷ 116 ∷ 121 ∷ 0 ∷ 80 ∷ 101 ∷ 114 ∷ 109
    ∷ 105 ∷ 115 ∷ 115 ∷ 105 ∷ 111 ∷ 110 ∷ 32 ∷ 100 ∷ 101 ∷ 110 ∷ 105 ∷ 101 ∷ 100 ∷ 0 ∷ 79 ∷ 112
    ∷ 101 ∷ 114 ∷ 97 ∷ 116 ∷ 105 ∷ 111 ∷ 110 ∷ 32 ∷ 110 ∷ 111 ∷ 116 ∷ 32 ∷ 112 ∷ 101 ∷ 114 ∷ 109
    ∷ 105 ∷ 116 ∷ 116 ∷ 101 ∷ 100 ∷ 0 ∷ 78 ∷ 111 ∷ 32 ∷ 115 ∷ 117 ∷ 99 ∷ 104 ∷ 32 ∷ 102 ∷ 105 ∷ 108
    ∷ 101 ∷ 32 ∷ 111 ∷ 114 ∷ 32 ∷ 100 ∷ 105 ∷ 114 ∷ 101 ∷ 99 ∷ 116 ∷ 111 ∷ 114 ∷ 121 ∷ 0 ∷ 78 ∷ 111
    ∷ 32 ∷ 115 ∷ 117 ∷ 99 ∷ 104 ∷ 32 ∷ 112 ∷ 114 ∷ 111 ∷ 99 ∷ 101 ∷ 115 ∷ 115 ∷ 0 ∷ 70 ∷ 105 ∷ 108
    ∷ 101 ∷ 32 ∷ 101 ∷ 120 ∷ 105 ∷ 115 ∷ 116 ∷ 115 ∷ 0 ∷ 86 ∷ 97 ∷ 108 ∷ 117 ∷ 101 ∷ 32 ∷ 116 ∷ 111
    ∷ 111 ∷ 32 ∷ 108 ∷ 97 ∷ 114 ∷ 103 ∷ 101 ∷ 32 ∷ 102 ∷ 111 ∷ 114 ∷ 32 ∷ 100 ∷ 97 ∷ 116 ∷ 97 ∷ 32
    ∷ 116 ∷ 121 ∷ 112 ∷ 101 ∷ 0 ∷ 78 ∷ 111 ∷ 32 ∷ 115 ∷ 112 ∷ 97 ∷ 99 ∷ 101 ∷ 32 ∷ 108 ∷ 101 ∷ 102
    ∷ 116 ∷ 32 ∷ 111 ∷ 110 ∷ 32 ∷ 100 ∷ 101 ∷ 118 ∷ 105 ∷ 99 ∷ 101 ∷ 0 ∷ 79 ∷ 117 ∷ 116 ∷ 32 ∷ 111
    ∷ 102 ∷ 32 ∷ 109 ∷ 101 ∷ 109 ∷ 111 ∷ 114 ∷ 121 ∷ 0 ∷ 82 ∷ 101 ∷ 115 ∷ 111 ∷ 117 ∷ 114 ∷ 99 ∷ 101
    ∷ 32 ∷ 98 ∷ 117 ∷ 115 ∷ 121 ∷ 0 ∷ 73 ∷ 110 ∷ 116 ∷ 101 ∷ 114 ∷ 114 ∷ 117 ∷ 112 ∷ 116 ∷ 101 ∷ 100
    ∷ 32 ∷ 115 ∷ 121 ∷ 115 ∷ 116 ∷ 101 ∷ 109 ∷ 32 ∷ 99 ∷ 97 ∷ 108 ∷ 108 ∷ 0 ∷ 82 ∷ 101 ∷ 115 ∷ 111
    ∷ 117 ∷ 114 ∷ 99 ∷ 101 ∷ 32 ∷ 116 ∷ 101 ∷ 109 ∷ 112 ∷ 111 ∷ 114 ∷ 97 ∷ 114 ∷ 105 ∷ 108 ∷ 121
    ∷ 32 ∷ 117 ∷ 110 ∷ 97 ∷ 118 ∷ 97 ∷ 105 ∷ 108 ∷ 97 ∷ 98 ∷ 108 ∷ 101 ∷ 0 ∷ 73 ∷ 110 ∷ 118 ∷ 97
    ∷ 108 ∷ 105 ∷ 100 ∷ 32 ∷ 115 ∷ 101 ∷ 101 ∷ 107 ∷ 0 ∷ 67 ∷ 114 ∷ 111 ∷ 115 ∷ 115 ∷ 45 ∷ 100 ∷ 101
    ∷ 118 ∷ 105 ∷ 99 ∷ 101 ∷ 32 ∷ 108 ∷ 105 ∷ 110 ∷ 107 ∷ 0 ∷ 82 ∷ 101 ∷ 97 ∷ 100 ∷ 45 ∷ 111 ∷ 110
    ∷ 108 ∷ 121 ∷ 32 ∷ 102 ∷ 105 ∷ 108 ∷ 101 ∷ 32 ∷ 115 ∷ 121 ∷ 115 ∷ 116 ∷ 101 ∷ 109 ∷ 0 ∷ 68 ∷ 105
    ∷ 114 ∷ 101 ∷ 99 ∷ 116 ∷ 111 ∷ 114 ∷ 121 ∷ 32 ∷ 110 ∷ 111 ∷ 116 ∷ 32 ∷ 101 ∷ 109 ∷ 112 ∷ 116
    ∷ 121 ∷ 0 ∷ 67 ∷ 111 ∷ 110 ∷ 110 ∷ 101 ∷ 99 ∷ 116 ∷ 105 ∷ 111 ∷ 110 ∷ 32 ∷ 114 ∷ 101 ∷ 115 ∷ 101
    ∷ 116 ∷ 32 ∷ 98 ∷ 121 ∷ 32 ∷ 112 ∷ 101 ∷ 101 ∷ 114 ∷ 0 ∷ 79 ∷ 112 ∷ 101 ∷ 114 ∷ 97 ∷ 116 ∷ 105
    ∷ 111 ∷ 110 ∷ 32 ∷ 116 ∷ 105 ∷ 109 ∷ 101 ∷ 100 ∷ 32 ∷ 111 ∷ 117 ∷ 116 ∷ 0 ∷ 67 ∷ 111 ∷ 110 ∷ 110
    ∷ 101 ∷ 99 ∷ 116 ∷ 105 ∷ 111 ∷ 110 ∷ 32 ∷ 114 ∷ 101 ∷ 102 ∷ 117 ∷ 115 ∷ 101 ∷ 100 ∷ 0 ∷ 72 ∷ 111
    ∷ 115 ∷ 116 ∷ 32 ∷ 105 ∷ 115 ∷ 32 ∷ 100 ∷ 111 ∷ 119 ∷ 110 ∷ 0 ∷ 72 ∷ 111 ∷ 115 ∷ 116 ∷ 32 ∷ 105
    ∷ 115 ∷ 32 ∷ 117 ∷ 110 ∷ 114 ∷ 101 ∷ 97 ∷ 99 ∷ 104 ∷ 97 ∷ 98 ∷ 108 ∷ 101 ∷ 0 ∷ 65 ∷ 100 ∷ 100
    ∷ 114 ∷ 101 ∷ 115 ∷ 115 ∷ 32 ∷ 105 ∷ 110 ∷ 32 ∷ 117 ∷ 115 ∷ 101 ∷ 0 ∷ 66 ∷ 114 ∷ 111 ∷ 107 ∷ 101
    ∷ 110 ∷ 32 ∷ 112 ∷ 105 ∷ 112 ∷ 101 ∷ 0 ∷ 73 ∷ 47 ∷ 79 ∷ 32 ∷ 101 ∷ 114 ∷ 114 ∷ 111 ∷ 114 ∷ 0
    ∷ 78 ∷ 111 ∷ 32 ∷ 115 ∷ 117 ∷ 99 ∷ 104 ∷ 32 ∷ 100 ∷ 101 ∷ 118 ∷ 105 ∷ 99 ∷ 101 ∷ 32 ∷ 111 ∷ 114
    ∷ 32 ∷ 97 ∷ 100 ∷ 100 ∷ 114 ∷ 101 ∷ 115 ∷ 115 ∷ 0 ∷ 66 ∷ 108 ∷ 111 ∷ 99 ∷ 107 ∷ 32 ∷ 100 ∷ 101
    ∷ 118 ∷ 105 ∷ 99 ∷ 101 ∷ 32 ∷ 114 ∷ 101 ∷ 113 ∷ 117 ∷ 105 ∷ 114 ∷ 101 ∷ 100 ∷ 0 ∷ 78 ∷ 111 ∷ 32
    ∷ 115 ∷ 117 ∷ 99 ∷ 104 ∷ 32 ∷ 100 ∷ 101 ∷ 118 ∷ 105 ∷ 99 ∷ 101 ∷ 0 ∷ 78 ∷ 111 ∷ 116 ∷ 32 ∷ 97
    ∷ 32 ∷ 100 ∷ 105 ∷ 114 ∷ 101 ∷ 99 ∷ 116 ∷ 111 ∷ 114 ∷ 121 ∷ 0 ∷ 73 ∷ 115 ∷ 32 ∷ 97 ∷ 32 ∷ 100
    ∷ 105 ∷ 114 ∷ 101 ∷ 99 ∷ 116 ∷ 111 ∷ 114 ∷ 121 ∷ 0 ∷ 84 ∷ 101 ∷ 120 ∷ 116 ∷ 32 ∷ 102 ∷ 105 ∷ 108
    ∷ 101 ∷ 32 ∷ 98 ∷ 117 ∷ 115 ∷ 121 ∷ 0 ∷ 69 ∷ 120 ∷ 101 ∷ 99 ∷ 32 ∷ 102 ∷ 111 ∷ 114 ∷ 109 ∷ 97
    ∷ 116 ∷ 32 ∷ 101 ∷ 114 ∷ 114 ∷ 111 ∷ 114 ∷ 0 ∷ 73 ∷ 110 ∷ 118 ∷ 97 ∷ 108 ∷ 105 ∷ 100 ∷ 32 ∷ 97
    ∷ 114 ∷ 103 ∷ 117 ∷ 109 ∷ 101 ∷ 110 ∷ 116 ∷ 0 ∷ 65 ∷ 114 ∷ 103 ∷ 117 ∷ 109 ∷ 101 ∷ 110 ∷ 116
    ∷ 32 ∷ 108 ∷ 105 ∷ 115 ∷ 116 ∷ 32 ∷ 116 ∷ 111 ∷ 111 ∷ 32 ∷ 108 ∷ 111 ∷ 110 ∷ 103 ∷ 0 ∷ 83 ∷ 121
    ∷ 109 ∷ 98 ∷ 111 ∷ 108 ∷ 105 ∷ 99 ∷ 32 ∷ 108 ∷ 105 ∷ 110 ∷ 107 ∷ 32 ∷ 108 ∷ 111 ∷ 111 ∷ 112 ∷ 0
    ∷ 70 ∷ 105 ∷ 108 ∷ 101 ∷ 110 ∷ 97 ∷ 109 ∷ 101 ∷ 32 ∷ 116 ∷ 111 ∷ 111 ∷ 32 ∷ 108 ∷ 111 ∷ 110
    ∷ 103 ∷ 0 ∷ 84 ∷ 111 ∷ 111 ∷ 32 ∷ 109 ∷ 97 ∷ 110 ∷ 121 ∷ 32 ∷ 111 ∷ 112 ∷ 101 ∷ 110 ∷ 32 ∷ 102
    ∷ 105 ∷ 108 ∷ 101 ∷ 115 ∷ 32 ∷ 105 ∷ 110 ∷ 32 ∷ 115 ∷ 121 ∷ 115 ∷ 116 ∷ 101 ∷ 109 ∷ 0 ∷ 78 ∷ 111
    ∷ 32 ∷ 102 ∷ 105 ∷ 108 ∷ 101 ∷ 32 ∷ 100 ∷ 101 ∷ 115 ∷ 99 ∷ 114 ∷ 105 ∷ 112 ∷ 116 ∷ 111 ∷ 114
    ∷ 115 ∷ 32 ∷ 97 ∷ 118 ∷ 97 ∷ 105 ∷ 108 ∷ 97 ∷ 98 ∷ 108 ∷ 101 ∷ 0 ∷ 66 ∷ 97 ∷ 100 ∷ 32 ∷ 102
    ∷ 105 ∷ 108 ∷ 101 ∷ 32 ∷ 100 ∷ 101 ∷ 115 ∷ 99 ∷ 114 ∷ 105 ∷ 112 ∷ 116 ∷ 111 ∷ 114 ∷ 0 ∷ 78 ∷ 111
    ∷ 32 ∷ 99 ∷ 104 ∷ 105 ∷ 108 ∷ 100 ∷ 32 ∷ 112 ∷ 114 ∷ 111 ∷ 99 ∷ 101 ∷ 115 ∷ 115 ∷ 0 ∷ 66 ∷ 97
    ∷ 100 ∷ 32 ∷ 97 ∷ 100 ∷ 100 ∷ 114 ∷ 101 ∷ 115 ∷ 115 ∷ 0 ∷ 70 ∷ 105 ∷ 108 ∷ 101 ∷ 32 ∷ 116 ∷ 111
    ∷ 111 ∷ 32 ∷ 108 ∷ []

abbrev pub d0_last : List ℕ
d0_last =
    97 ∷ 114 ∷ 103 ∷ 101 ∷ 0 ∷ 84 ∷ 111 ∷ 111 ∷ 32 ∷ 109 ∷ 97 ∷ 110 ∷ 121 ∷ 32 ∷ 108 ∷ 105 ∷ 110
    ∷ 107 ∷ 115 ∷ 0 ∷ 78 ∷ 111 ∷ 32 ∷ 108 ∷ 111 ∷ 99 ∷ 107 ∷ 115 ∷ 32 ∷ 97 ∷ 118 ∷ 97 ∷ 105 ∷ 108
    ∷ 97 ∷ 98 ∷ 108 ∷ 101 ∷ 0 ∷ 82 ∷ 101 ∷ 115 ∷ 111 ∷ 117 ∷ 114 ∷ 99 ∷ 101 ∷ 32 ∷ 100 ∷ 101 ∷ 97
    ∷ 100 ∷ 108 ∷ 111 ∷ 99 ∷ 107 ∷ 32 ∷ 119 ∷ 111 ∷ 117 ∷ 108 ∷ 100 ∷ 32 ∷ 111 ∷ 99 ∷ 99 ∷ 117 ∷ 114
    ∷ 0 ∷ 83 ∷ 116 ∷ 97 ∷ 116 ∷ 101 ∷ 32 ∷ 110 ∷ 111 ∷ 116 ∷ 32 ∷ 114 ∷ 101 ∷ 99 ∷ 111 ∷ 118 ∷ 101
    ∷ 114 ∷ 97 ∷ 98 ∷ 108 ∷ 101 ∷ 0 ∷ 80 ∷ 114 ∷ 101 ∷ 118 ∷ 105 ∷ 111 ∷ 117 ∷ 115 ∷ 32 ∷ 111 ∷ 119
    ∷ 110 ∷ 101 ∷ 114 ∷ 32 ∷ 100 ∷ 105 ∷ 101 ∷ 100 ∷ 0 ∷ 79 ∷ 112 ∷ 101 ∷ 114 ∷ 97 ∷ 116 ∷ 105 ∷ 111
    ∷ 110 ∷ 32 ∷ 99 ∷ 97 ∷ 110 ∷ 99 ∷ 101 ∷ 108 ∷ 101 ∷ 100 ∷ 0 ∷ 70 ∷ 117 ∷ 110 ∷ 99 ∷ 116 ∷ 105
    ∷ 111 ∷ 110 ∷ 32 ∷ 110 ∷ 111 ∷ 116 ∷ 32 ∷ 105 ∷ 109 ∷ 112 ∷ 108 ∷ 101 ∷ 109 ∷ 101 ∷ 110 ∷ 116
    ∷ 101 ∷ 100 ∷ 0 ∷ 78 ∷ 111 ∷ 32 ∷ 109 ∷ 101 ∷ 115 ∷ 115 ∷ 97 ∷ 103 ∷ 101 ∷ 32 ∷ 111 ∷ 102 ∷ 32
    ∷ 100 ∷ 101 ∷ 115 ∷ 105 ∷ 114 ∷ 101 ∷ 100 ∷ 32 ∷ 116 ∷ 121 ∷ 112 ∷ 101 ∷ 0 ∷ 73 ∷ 100 ∷ 101
    ∷ 110 ∷ 116 ∷ 105 ∷ 102 ∷ 105 ∷ 101 ∷ 114 ∷ 32 ∷ 114 ∷ 101 ∷ 109 ∷ 111 ∷ 118 ∷ 101 ∷ 100 ∷ 0
    ∷ 68 ∷ 101 ∷ 118 ∷ 105 ∷ 99 ∷ 101 ∷ 32 ∷ 110 ∷ 111 ∷ 116 ∷ 32 ∷ 97 ∷ 32 ∷ 115 ∷ 116 ∷ 114 ∷ 101
    ∷ 97 ∷ 109 ∷ 0 ∷ 78 ∷ 111 ∷ 32 ∷ 100 ∷ 97 ∷ 116 ∷ 97 ∷ 32 ∷ 97 ∷ 118 ∷ 97 ∷ 105 ∷ 108 ∷ 97 ∷ 98
    ∷ 108 ∷ 101 ∷ 0 ∷ 68 ∷ 101 ∷ 118 ∷ 105 ∷ 99 ∷ 101 ∷ 32 ∷ 116 ∷ 105 ∷ 109 ∷ 101 ∷ 111 ∷ 117 ∷ 116
    ∷ 0 ∷ 79 ∷ 117 ∷ 116 ∷ 32 ∷ 111 ∷ 102 ∷ 32 ∷ 115 ∷ 116 ∷ 114 ∷ 101 ∷ 97 ∷ 109 ∷ 115 ∷ 32 ∷ 114
    ∷ 101 ∷ 115 ∷ 111 ∷ 117 ∷ 114 ∷ 99 ∷ 101 ∷ 115 ∷ 0 ∷ 76 ∷ 105 ∷ 110 ∷ 107 ∷ 32 ∷ 104 ∷ 97 ∷ 115
    ∷ 32 ∷ 98 ∷ 101 ∷ 101 ∷ 110 ∷ 32 ∷ 115 ∷ 101 ∷ 118 ∷ 101 ∷ 114 ∷ 101 ∷ 100 ∷ 0 ∷ 80 ∷ 114 ∷ 111
    ∷ 116 ∷ 111 ∷ 99 ∷ 111 ∷ 108 ∷ 32 ∷ 101 ∷ 114 ∷ 114 ∷ 111 ∷ 114 ∷ 0 ∷ 66 ∷ 97 ∷ 100 ∷ 32 ∷ 109
    ∷ 101 ∷ 115 ∷ 115 ∷ 97 ∷ 103 ∷ 101 ∷ 0 ∷ 70 ∷ 105 ∷ 108 ∷ 101 ∷ 32 ∷ 100 ∷ 101 ∷ 115 ∷ 99 ∷ 114
    ∷ 105 ∷ 112 ∷ 116 ∷ 111 ∷ 114 ∷ 32 ∷ 105 ∷ 110 ∷ 32 ∷ 98 ∷ 97 ∷ 100 ∷ 32 ∷ 115 ∷ 116 ∷ 97 ∷ 116
    ∷ 101 ∷ 0 ∷ 78 ∷ 111 ∷ 116 ∷ 32 ∷ 97 ∷ 32 ∷ 115 ∷ 111 ∷ 99 ∷ 107 ∷ 101 ∷ 116 ∷ 0 ∷ 68 ∷ 101
    ∷ 115 ∷ 116 ∷ 105 ∷ 110 ∷ 97 ∷ 116 ∷ 105 ∷ 111 ∷ 110 ∷ 32 ∷ 97 ∷ 100 ∷ 100 ∷ 114 ∷ 101 ∷ 115
    ∷ 115 ∷ 32 ∷ 114 ∷ 101 ∷ 113 ∷ 117 ∷ 105 ∷ 114 ∷ 101 ∷ 100 ∷ 0 ∷ 77 ∷ 101 ∷ 115 ∷ 115 ∷ 97 ∷ 103
    ∷ 101 ∷ 32 ∷ 116 ∷ 111 ∷ 111 ∷ 32 ∷ 108 ∷ 97 ∷ 114 ∷ 103 ∷ 101 ∷ 0 ∷ 80 ∷ 114 ∷ 111 ∷ 116 ∷ 111
    ∷ 99 ∷ 111 ∷ 108 ∷ 32 ∷ 119 ∷ 114 ∷ 111 ∷ 110 ∷ 103 ∷ 32 ∷ 116 ∷ 121 ∷ 112 ∷ 101 ∷ 32 ∷ 102
    ∷ 111 ∷ 114 ∷ 32 ∷ 115 ∷ 111 ∷ 99 ∷ 107 ∷ 101 ∷ 116 ∷ 0 ∷ 80 ∷ 114 ∷ 111 ∷ 116 ∷ 111 ∷ 99 ∷ 111
    ∷ 108 ∷ 32 ∷ 110 ∷ 111 ∷ 116 ∷ 32 ∷ 97 ∷ 118 ∷ 97 ∷ 105 ∷ 108 ∷ 97 ∷ 98 ∷ 108 ∷ 101 ∷ 0 ∷ 80
    ∷ 114 ∷ 111 ∷ 116 ∷ 111 ∷ 99 ∷ 111 ∷ 108 ∷ 32 ∷ 110 ∷ 111 ∷ 116 ∷ 32 ∷ 115 ∷ 117 ∷ 112 ∷ 112
    ∷ 111 ∷ 114 ∷ 116 ∷ 101 ∷ 100 ∷ 0 ∷ 83 ∷ 111 ∷ 99 ∷ 107 ∷ 101 ∷ 116 ∷ 32 ∷ 116 ∷ 121 ∷ 112 ∷ 101
    ∷ 32 ∷ 110 ∷ 111 ∷ 116 ∷ 32 ∷ 115 ∷ 117 ∷ 112 ∷ 112 ∷ 111 ∷ 114 ∷ 116 ∷ 101 ∷ 100 ∷ 0 ∷ 78 ∷ 111
    ∷ 116 ∷ 32 ∷ 115 ∷ 117 ∷ 112 ∷ 112 ∷ 111 ∷ 114 ∷ 116 ∷ 101 ∷ 100 ∷ 0 ∷ 80 ∷ 114 ∷ 111 ∷ 116
    ∷ 111 ∷ 99 ∷ 111 ∷ 108 ∷ 32 ∷ 102 ∷ 97 ∷ 109 ∷ 105 ∷ 108 ∷ 121 ∷ 32 ∷ 110 ∷ 111 ∷ 116 ∷ 32 ∷ 115
    ∷ 117 ∷ 112 ∷ 112 ∷ 111 ∷ 114 ∷ 116 ∷ 101 ∷ 100 ∷ 0 ∷ 65 ∷ 100 ∷ 100 ∷ 114 ∷ 101 ∷ 115 ∷ 115
    ∷ 32 ∷ 102 ∷ 97 ∷ 109 ∷ 105 ∷ 108 ∷ 121 ∷ 32 ∷ 110 ∷ 111 ∷ 116 ∷ 32 ∷ 115 ∷ 117 ∷ 112 ∷ 112
    ∷ 111 ∷ 114 ∷ 116 ∷ 101 ∷ 100 ∷ 32 ∷ 98 ∷ 121 ∷ 32 ∷ 112 ∷ 114 ∷ 111 ∷ 116 ∷ 111 ∷ 99 ∷ 111
    ∷ 108 ∷ 0 ∷ 65 ∷ 100 ∷ 100 ∷ 114 ∷ 101 ∷ 115 ∷ 115 ∷ 32 ∷ 110 ∷ 111 ∷ 116 ∷ 32 ∷ 97 ∷ 118 ∷ 97
    ∷ 105 ∷ 108 ∷ 97 ∷ 98 ∷ 108 ∷ 101 ∷ 0 ∷ 78 ∷ 101 ∷ 116 ∷ 119 ∷ 111 ∷ 114 ∷ 107 ∷ 32 ∷ 105 ∷ 115
    ∷ 32 ∷ 100 ∷ 111 ∷ 119 ∷ 110 ∷ 0 ∷ 78 ∷ 101 ∷ 116 ∷ 119 ∷ 111 ∷ 114 ∷ 107 ∷ 32 ∷ 117 ∷ 110 ∷ 114
    ∷ 101 ∷ 97 ∷ 99 ∷ 104 ∷ 97 ∷ 98 ∷ 108 ∷ 101 ∷ 0 ∷ 67 ∷ 111 ∷ 110 ∷ 110 ∷ 101 ∷ 99 ∷ 116 ∷ 105
    ∷ 111 ∷ 110 ∷ 32 ∷ 114 ∷ 101 ∷ 115 ∷ 101 ∷ 116 ∷ 32 ∷ 98 ∷ 121 ∷ 32 ∷ 110 ∷ 101 ∷ 116 ∷ 119
    ∷ 111 ∷ 114 ∷ 107 ∷ 0 ∷ 67 ∷ 111 ∷ 110 ∷ 110 ∷ 101 ∷ 99 ∷ 116 ∷ 105 ∷ 111 ∷ 110 ∷ 32 ∷ 97 ∷ 98
    ∷ 111 ∷ 114 ∷ 116 ∷ 101 ∷ 100 ∷ 0 ∷ 78 ∷ 111 ∷ 32 ∷ 98 ∷ 117 ∷ 102 ∷ 102 ∷ 101 ∷ 114 ∷ 32 ∷ 115
    ∷ 112 ∷ 97 ∷ 99 ∷ 101 ∷ 32 ∷ 97 ∷ 118 ∷ 97 ∷ 105 ∷ 108 ∷ 97 ∷ 98 ∷ 108 ∷ 101 ∷ 0 ∷ 83 ∷ 111 ∷ 99
    ∷ 107 ∷ 101 ∷ 116 ∷ 32 ∷ 105 ∷ 115 ∷ 32 ∷ 99 ∷ 111 ∷ 110 ∷ 110 ∷ 101 ∷ 99 ∷ 116 ∷ 101 ∷ 100 ∷ 0
    ∷ 83 ∷ 111 ∷ 99 ∷ 107 ∷ 101 ∷ 116 ∷ 32 ∷ 110 ∷ 111 ∷ 116 ∷ 32 ∷ 99 ∷ 111 ∷ 110 ∷ 110 ∷ 101 ∷ 99
    ∷ 116 ∷ 101 ∷ 100 ∷ 0 ∷ 67 ∷ 97 ∷ 110 ∷ 110 ∷ 111 ∷ 116 ∷ 32 ∷ 115 ∷ 101 ∷ 110 ∷ 100 ∷ 32 ∷ 97
    ∷ 102 ∷ 116 ∷ 101 ∷ 114 ∷ 32 ∷ 115 ∷ 111 ∷ 99 ∷ 107 ∷ 101 ∷ 116 ∷ 32 ∷ 115 ∷ 104 ∷ 117 ∷ 116
    ∷ 100 ∷ 111 ∷ 119 ∷ 110 ∷ 0 ∷ 79 ∷ 112 ∷ 101 ∷ 114 ∷ 97 ∷ 116 ∷ 105 ∷ 111 ∷ 110 ∷ 32 ∷ 97 ∷ 108
    ∷ 114 ∷ 101 ∷ 97 ∷ 100 ∷ 121 ∷ 32 ∷ 105 ∷ 110 ∷ 32 ∷ 112 ∷ 114 ∷ 111 ∷ 103 ∷ 114 ∷ 101 ∷ 115
    ∷ 115 ∷ 0 ∷ 79 ∷ 112 ∷ 101 ∷ 114 ∷ 97 ∷ 116 ∷ 105 ∷ 111 ∷ 110 ∷ 32 ∷ 105 ∷ 110 ∷ 32 ∷ 112 ∷ 114
    ∷ 111 ∷ 103 ∷ 114 ∷ 101 ∷ 115 ∷ 115 ∷ 0 ∷ 83 ∷ 116 ∷ 97 ∷ 108 ∷ 101 ∷ 32 ∷ 102 ∷ 105 ∷ 108 ∷ 101
    ∷ 32 ∷ 104 ∷ 97 ∷ 110 ∷ 100 ∷ 108 ∷ 101 ∷ 0 ∷ 82 ∷ 101 ∷ 109 ∷ 111 ∷ 116 ∷ 101 ∷ 32 ∷ 73 ∷ 47
    ∷ 79 ∷ 32 ∷ 101 ∷ 114 ∷ 114 ∷ 111 ∷ 114 ∷ 0 ∷ 81 ∷ 117 ∷ 111 ∷ 116 ∷ 97 ∷ 32 ∷ 101 ∷ 120 ∷ 99
    ∷ 101 ∷ 101 ∷ 100 ∷ 101 ∷ 100 ∷ 0 ∷ 78 ∷ 111 ∷ 32 ∷ 109 ∷ 101 ∷ 100 ∷ 105 ∷ 117 ∷ 109 ∷ 32 ∷ 102
    ∷ 111 ∷ 117 ∷ 110 ∷ 100 ∷ 0 ∷ 87 ∷ 114 ∷ 111 ∷ 110 ∷ 103 ∷ 32 ∷ 109 ∷ 101 ∷ 100 ∷ 105 ∷ 117
    ∷ 109 ∷ 32 ∷ 116 ∷ 121 ∷ 112 ∷ 101 ∷ 0 ∷ 77 ∷ 117 ∷ 108 ∷ 116 ∷ 105 ∷ 104 ∷ 111 ∷ 112 ∷ 32 ∷ 97
    ∷ 116 ∷ 116 ∷ 101 ∷ 109 ∷ 112 ∷ 116 ∷ 101 ∷ 100 ∷ 0 ∷ 82 ∷ 101 ∷ 113 ∷ 117 ∷ 105 ∷ 114 ∷ 101
    ∷ 100 ∷ 32 ∷ 107 ∷ 101 ∷ 121 ∷ 32 ∷ 110 ∷ 111 ∷ 116 ∷ 32 ∷ 97 ∷ 118 ∷ 97 ∷ 105 ∷ 108 ∷ 97 ∷ 98
    ∷ 108 ∷ 101 ∷ 0 ∷ 75 ∷ 101 ∷ 121 ∷ 32 ∷ 104 ∷ 97 ∷ 115 ∷ 32 ∷ 101 ∷ 120 ∷ 112 ∷ 105 ∷ 114 ∷ 101
    ∷ 100 ∷ 0 ∷ 75 ∷ 101 ∷ 121 ∷ 32 ∷ 104 ∷ 97 ∷ 115 ∷ 32 ∷ 98 ∷ 101 ∷ 101 ∷ 110 ∷ 32 ∷ 114 ∷ 101
    ∷ 118 ∷ 111 ∷ 107 ∷ 101 ∷ 100 ∷ 0 ∷ 75 ∷ 101 ∷ 121 ∷ 32 ∷ 119 ∷ 97 ∷ 115 ∷ 32 ∷ 114 ∷ 101 ∷ 106
    ∷ 101 ∷ 99 ∷ 116 ∷ 101 ∷ 100 ∷ 32 ∷ 98 ∷ 121 ∷ 32 ∷ 115 ∷ 101 ∷ 114 ∷ 118 ∷ 105 ∷ 99 ∷ 101 ∷ 0
    ∷ 0 ∷ 0 ∷ 0 ∷ 0 ∷ 0 ∷ 0 ∷ 0 ∷ 0 ∷ 165 ∷ 2 ∷ 91 ∷ 0 ∷ 240 ∷ 1 ∷ 181 ∷ 5 ∷ 140 ∷ 5 ∷ 37 ∷ 1 ∷ 131
    ∷ 6 ∷ 29 ∷ 3 ∷ 148 ∷ 4 ∷ 255 ∷ 0 ∷ 199 ∷ 3 ∷ 49 ∷ 3 ∷ 11 ∷ 6 ∷ 188 ∷ 1 ∷ 143 ∷ 1 ∷ 127 ∷ 3 ∷ 202
    ∷ 4 ∷ 43 ∷ 0 ∷ 218 ∷ 6 ∷ 175 ∷ 0 ∷ 66 ∷ 3 ∷ 78 ∷ 3 ∷ 220 ∷ 1 ∷ 14 ∷ 4 ∷ 21 ∷ 0 ∷ 161 ∷ 6 ∷ 13
    ∷ 1 ∷ 148 ∷ 2 ∷ 11 ∷ 2 ∷ 56 ∷ 6 ∷ 100 ∷ 2 ∷ 188 ∷ 2 ∷ 255 ∷ 2 ∷ 93 ∷ 3 ∷ 231 ∷ 4 ∷ 11 ∷ 7 ∷ 207
    ∷ 2 ∷ 203 ∷ 5 ∷ 239 ∷ 5 ∷ 219 ∷ 5 ∷ 225 ∷ 2 ∷ 30 ∷ 6 ∷ 69 ∷ 2 ∷ 133 ∷ 0 ∷ 130 ∷ 2 ∷ 108 ∷ 3
    ∷ 111 ∷ 4 ∷ 241 ∷ 0 ∷ 243 ∷ 3 ∷ 24 ∷ 5 ∷ 217 ∷ 0 ∷ 218 ∷ 3 ∷ 76 ∷ 6 ∷ 84 ∷ 2 ∷ 123 ∷ 1 ∷ 157 ∷ 3
    ∷ 189 ∷ 4 ∷ 0 ∷ 0 ∷ 81 ∷ 0 ∷ 21 ∷ 2 ∷ 187 ∷ 0 ∷ 179 ∷ 3 ∷ 109 ∷ 0 ∷ 255 ∷ 1 ∷ 133 ∷ 4 ∷ 47 ∷ 5
    ∷ 249 ∷ 4 ∷ 56 ∷ 0 ∷ 101 ∷ 1 ∷ 70 ∷ 1 ∷ 159 ∷ 0 ∷ 183 ∷ 6 ∷ 168 ∷ 1 ∷ 115 ∷ 2 ∷ 83 ∷ 1 ∷ 0 ∷ 0
    ∷ 0 ∷ 0 ∷ 0 ∷ 0 ∷ 0 ∷ 0 ∷ 0 ∷ 0 ∷ 0 ∷ 0 ∷ 0 ∷ 0 ∷ 0 ∷ 0 ∷ 0 ∷ 0 ∷ 0 ∷ 0 ∷ 0 ∷ 0 ∷ 0 ∷ 0 ∷ 0 ∷ 0
    ∷ 0 ∷ 0 ∷ 0 ∷ 0 ∷ 0 ∷ 0 ∷ 0 ∷ 0 ∷ 0 ∷ 0 ∷ 0 ∷ 0 ∷ 0 ∷ 0 ∷ 0 ∷ 0 ∷ 0 ∷ 0 ∷ 0 ∷ 0 ∷ 0 ∷ 0 ∷ 33 ∷ 4
    ∷ 0 ∷ 0 ∷ 0 ∷ 0 ∷ 0 ∷ 0 ∷ 0 ∷ 0 ∷ 47 ∷ 2 ∷ 0 ∷ 0 ∷ 0 ∷ 0 ∷ 0 ∷ 0 ∷ 0 ∷ 0 ∷ 0 ∷ 0 ∷ 0 ∷ 0 ∷ 0 ∷ 0
    ∷ 0 ∷ 0 ∷ 0 ∷ 0 ∷ 0 ∷ 0 ∷ 53 ∷ 4 ∷ 71 ∷ 4 ∷ 86 ∷ 4 ∷ 0 ∷ 0 ∷ 0 ∷ 0 ∷ 0 ∷ 0 ∷ 0 ∷ 0 ∷ 0 ∷ 0 ∷ 0
    ∷ 0 ∷ 0 ∷ 0 ∷ 0 ∷ 0 ∷ 160 ∷ 4 ∷ 0 ∷ 0 ∷ 0 ∷ 0 ∷ 0 ∷ 0 ∷ 0 ∷ 0 ∷ 0 ∷ 0 ∷ 0 ∷ 0 ∷ 0 ∷ 0 ∷ 0 ∷ 0
    ∷ 0 ∷ 0 ∷ 70 ∷ 5 ∷ 96 ∷ 5 ∷ 110 ∷ 5 ∷ 97 ∷ 6 ∷ 0 ∷ 0 ∷ 207 ∷ 1 ∷ 0 ∷ 0 ∷ 0 ∷ 0 ∷ 0 ∷ 0 ∷ 0 ∷ 0
    ∷ 201 ∷ 6 ∷ 233 ∷ 6 ∷ 249 ∷ 6 ∷ 30 ∷ 7 ∷ 57 ∷ 7 ∷ 73 ∷ 7 ∷ 94 ∷ 7 ∷ []

abbrev pub d0 : List ℕ
d0 = d0_first ++ d0_last

abbrev pub d1 : List ℕ
d1 =
    5 ∷ 0 ∷ 0 ∷ 0 ∷ 0 ∷ 0 ∷ 0 ∷ 0 ∷ 0 ∷ 0 ∷ 0 ∷ 0 ∷ 1 ∷ 0 ∷ 0 ∷ 0 ∷ 0 ∷ 0 ∷ 0 ∷ 0 ∷ 0 ∷ 0 ∷ 0 ∷ 0
    ∷ 0 ∷ 0 ∷ 0 ∷ 0 ∷ 0 ∷ 0 ∷ 0 ∷ 0 ∷ 0 ∷ 0 ∷ 0 ∷ 0 ∷ 2 ∷ 0 ∷ 0 ∷ 0 ∷ 3 ∷ 0 ∷ 0 ∷ 0 ∷ 136 ∷ 11 ∷ 1
    ∷ 0 ∷ 0 ∷ 4 ∷ 0 ∷ 0 ∷ 0 ∷ 0 ∷ 0 ∷ 0 ∷ 0 ∷ 0 ∷ 0 ∷ 0 ∷ 1 ∷ 0 ∷ 0 ∷ 0 ∷ 0 ∷ 0 ∷ 0 ∷ 0 ∷ 0 ∷ 0 ∷ 0
    ∷ 0 ∷ 0 ∷ 0 ∷ 0 ∷ 0 ∷ 255 ∷ 255 ∷ 255 ∷ 255 ∷ 10 ∷ 0 ∷ 0 ∷ 0 ∷ 0 ∷ 0 ∷ 0 ∷ 0 ∷ 0 ∷ 0 ∷ 0 ∷ 0 ∷ 0
    ∷ 0 ∷ 0 ∷ 0 ∷ 0 ∷ 0 ∷ 0 ∷ 0 ∷ 0 ∷ 0 ∷ 0 ∷ 0 ∷ 0 ∷ 0 ∷ 0 ∷ 0 ∷ 0 ∷ 0 ∷ 0 ∷ 0 ∷ 0 ∷ 0 ∷ 0 ∷ 0 ∷ 0
    ∷ 0 ∷ 0 ∷ 0 ∷ 0 ∷ 0 ∷ 0 ∷ 0 ∷ 0 ∷ 0 ∷ 0 ∷ 0 ∷ 0 ∷ 0 ∷ 0 ∷ 0 ∷ 0 ∷ 0 ∷ 0 ∷ 0 ∷ 0 ∷ 0 ∷ 0 ∷ 0 ∷ 0
    ∷ 0 ∷ 0 ∷ 0 ∷ 232 ∷ 10 ∷ 1 ∷ 0 ∷ []

pub d0-length : length d0 ≡ 2788
d0-length = refl
