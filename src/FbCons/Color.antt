-- ===== src/FbCons/Color.antt =====
-- Colors: `Color`, `ColorOrder` and the palette of FbCons/Includes/FbCons/Console.h.
use kush_os_rewrite.Base.{ℕ, ◌*◌, ◌^◌, bit_or, List, [], ◌∷◌}

pub data ColorOrder : Type 0 where
  rgba argb : ColorOrder

pub record Color : Type 0 where
  pub r : ℕ
  pub g : ℕ
  pub b : ℕ
  pub a : ℕ

-- `Color(r, g, b)`
abbrev pub opaque : ℕ → ℕ → ℕ → Color
opaque r g b = record { r = r; g = g; b = b; a = 0xff }

-- `convert`, of components below 256
unfoldable pub convert : Color → ColorOrder → ℕ
convert c rgba = bit_or (bit_or (bit_or (c.r * 2 ^ 24) (c.g * 2 ^ 16)) (c.b * 2 ^ 8)) c.a
convert c argb = bit_or (bit_or (bit_or (c.a * 2 ^ 24) (c.r * 2 ^ 16)) (c.g * 2 ^ 8)) c.b

-- `palette`
abbrev pub palette : List Color
palette =
    opaque 0 0 0
    ∷ opaque 205 49 49
    ∷ opaque 13 188 121
    ∷ opaque 229 229 16
    ∷ opaque 36 114 200
    ∷ opaque 188 63 188
    ∷ opaque 17 168 205
    ∷ opaque 229 229 229
    ∷ opaque 102 102 102
    ∷ opaque 241 76 76
    ∷ opaque 35 209 139
    ∷ opaque 245 245 67
    ∷ opaque 59 142 234
    ∷ opaque 214 112 214
    ∷ opaque 41 184 219
    ∷ opaque 229 229 229
    ∷ []
