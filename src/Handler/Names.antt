-- ===== src/Handler/Names.antt =====
-- Strings: `BCPL_TO_C_STR` of util.c, and the parts of names that do_find_output,
-- do_locate_object and the FileInfoBlock take. A C string is the list of its bytes without the NUL.
use cwnet.Base.{
  ℕ, ◌+◌, ◌-◌, ◌%◌, List, [], ◌∷◌, Option, none, some, Bool, true, false, ◌>>=◌, if◌then◌else◌,
  ◌==◌, ltb, leb, length, take, ◌&&◌, ◌||◌,
}

abbrev pub colon : ℕ
colon = b':'

abbrev pub slash : ℕ
slash = b'/'

-- The bytes of a block up to the first NUL.
unfoldable pub until_nul : List ℕ → List ℕ
until_nul [] = []
until_nul (c ∷ cs) = if c == 0 then [] else c ∷ until_nul cs

-- The first byte of a BCPL string is its length, read as a (signed) char: a negative one is a huge
-- size for memcpy.
unfoldable pub bcpl_to_c_str : List ℕ → Option (List ℕ)
unfolding until_nul
bcpl_to_c_str [] = none
bcpl_to_c_str (n ∷ chars) =
    if ltb n 128
    then if leb n (length chars) then some (until_nul (take n chars)) else none
    else none

-- What stands behind the first `c`: `strchr(s, c) + 1`, with `none` for NULL.
unfoldable pub after_first : ℕ → List ℕ → Option (List ℕ)
after_first c [] = none
after_first c (x ∷ xs) = if x == c then some xs else after_first c xs

unfoldable pub or_else : Option (List ℕ) → Option (List ℕ) → Option (List ℕ)
or_else (some a) b = some a
or_else none b = b

-- What stands behind the last `c`: `strrchr(s, c) + 1`.
unfoldable pub after_last : ℕ → List ℕ → Option (List ℕ)
unfolding or_else
after_last c [] = none
after_last c (x ∷ xs) = or_else (after_last c xs) (if x == c then some xs else none)

-- The pointer moved over two bytes of the string.
unfoldable pub skip_two : List ℕ → Option (List ℕ)
skip_two (a ∷ b ∷ rest) = some rest
skip_two (a ∷ []) = none
skip_two [] = none

abbrev pub max_path_len : ℕ
max_path_len = 256

-- The name in a URL `net://<address>/<name>`. A pointer that was NULL, or has left the string, is
-- undefined behaviour.
unfoldable pub url_file_name : List ℕ → Option (List ℕ)
unfolding after_first after_last skip_two
url_file_name fname = do
  path ← after_last colon fname
  address ← skip_two path
  name ← after_first slash address
  some (take (max_path_len - 1) name)

-- `strstr(fname, "//")`
unfoldable pub has_double_slash : List ℕ → Bool
has_double_slash [] = false
has_double_slash (x ∷ []) = false
has_double_slash (x ∷ y ∷ rest) = (x == slash && y == slash) || has_double_slash (y ∷ rest)

unfoldable pub same_bytes : List ℕ → List ℕ → Bool
same_bytes [] [] = true
same_bytes [] (y ∷ ys) = false
same_bytes (x ∷ xs) [] = false
same_bytes (x ∷ xs) (y ∷ ys) = x == y && same_bytes xs ys

-- The name without the device.
unfoldable pub queue_name : List ℕ → List ℕ
unfolding after_last
queue_name fname = elim (after_last colon fname) [ none ↦ fname | some name ↦ name ]

abbrev pub max_filename_len : ℕ
max_filename_len = 108

-- `fib_FileName`: the length byte and the characters, of which strncpy copies 106 at most.
pub record FibName : Type 0 where
  pub length_byte : ℕ
  pub chars : List ℕ

unfoldable pub fib_name : List ℕ → FibName
fib_name fname = record {
  length_byte = (length fname % max_filename_len + 256 - 1) % 256;
  chars = take (max_filename_len - 2) fname;
}

-- What a reader of the BCPL string gets.
unfoldable pub bcpl_read : FibName → List ℕ
bcpl_read n = take n.length_byte n.chars
