-- ===== src/Ingestion/Text.antt =====
-- `_normalize_alias_text`: runs of white space become one space, the ends are stripped, and the
-- text is lowered.
use ticketmirror.Base.{ℕ, String, Bool, true, false, ◌&&◌, ◌||◌, leb, ◌==◌, if◌then◌else◌}
use Prim.Native.Char.{Char, code}
use ticketmirror.Ingestion.Environment.{Environment}

-- The characters that `\s` and `strip` take for white space.
abbrev pub is_space_code : ℕ → Bool
is_space_code c =
    (leb 9 c && leb c 13)
    || ((leb 28 c && leb c 32)
        || (c == 0x85
            || (c == 0xa0
                || (c == 0x1680
                    || ((leb 0x2000 c && leb c 0x200a)
                        || (c == 0x2028
                            || (c == 0x2029 || (c == 0x202f || (c == 0x205f || c == 0x3000)))))))))

unfoldable pub is_space : Char → Bool
is_space c = is_space_code (code c)

abbrev pub space_before : String → String
space_before s = String.◌∷◌ " " s

-- `re.sub(r"\s+", " ", s)`; `inside` says that the run has its space already.
unfoldable pub squeeze : Bool → String → String
unfolding is_space
squeeze inside String.[] = ""
squeeze inside (String.◌∷◌ c s) =
    let in_run = squeeze true s in
    let after = squeeze false s in
    if is_space c then (if inside then in_run else space_before in_run) else String.◌∷◌ c after

unfoldable pub strip_left : String → String
unfolding is_space
strip_left String.[] = ""
strip_left (String.◌∷◌ c s) = let rest = strip_left s in if is_space c then rest else String.◌∷◌ c s

unfoldable pub cons_unless_blank : Char → String → String
unfolding is_space
cons_unless_blank c String.[] = if is_space c then "" else String.◌∷◌ c ""
cons_unless_blank c (String.◌∷◌ d s) = String.◌∷◌ c (String.◌∷◌ d s)

unfoldable pub strip_right : String → String
unfolding is_space cons_unless_blank
strip_right String.[] = ""
strip_right (String.◌∷◌ c s) = cons_unless_blank c (strip_right s)

unfoldable pub normalize_alias_text : Environment → String → String
unfolding squeeze strip_left strip_right
normalize_alias_text env s = env.lower (strip_right (strip_left (squeeze false s)))
