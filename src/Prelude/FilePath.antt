-- ===== src/Prelude/FilePath.antt =====
-- What the source uses of the package `path`: `Clean` and `Join`.
use mathlib.Core.Bool.{Bool, false}
use mathlib.Core.List.{List, [], ◌∷◌, reverse}
use d2p_migrator.Prelude.Tests.{Str, ◌==◌, dec_str, eqb, if◌then◌else◌, str}
use d2p_migrator.Prelude.Text.{split, join}

-- One element of a path, with the elements before it in reverse: `.` and an empty element are
-- dropped, and `..` drops the element before it, or goes up from the working directory.
clean_part : Bool → Str → List Str → List Str
unfolding str
clean_part rooted part [] =
    if part == []
    then []
    else if part == str "."
    then []
    else if part == str ".."
    then (if rooted then [] else part ∷ [])
    else part ∷ []
clean_part rooted part (top ∷ stack) =
    if part == []
    then top ∷ stack
    else if part == str "."
    then top ∷ stack
    else if part == str ".."
    then (if top == str ".." then part ∷ top ∷ stack else stack)
    else part ∷ top ∷ stack

clean_parts : Bool → List Str → List Str → List Str
unfolding clean_part
clean_parts rooted [] stack = stack
clean_parts rooted (part ∷ parts) stack = clean_parts rooted parts (clean_part rooted part stack)

is_rooted : Str → Bool
is_rooted [] = false
is_rooted (c ∷ s) = eqb c b'/'

or_dot : Str → Str
or_dot [] = b'.' ∷ []
or_dot (c ∷ s) = c ∷ s

-- `path.Clean`
unfoldable pub clean : Str → Str
unfolding clean_parts is_rooted or_dot split join
clean p =
    let body = join (b'/' ∷ []) (reverse (clean_parts (is_rooted p) (split b'/' p) [])) in
    if is_rooted p then b'/' ∷ body else or_dot body

drop_empty : List Str → List Str
drop_empty [] = []
drop_empty ([] ∷ elems) = drop_empty elems
drop_empty ((c ∷ s) ∷ elems) = (c ∷ s) ∷ drop_empty elems

clean_joined : List Str → Str
unfolding clean
clean_joined [] = []
clean_joined (e ∷ elems) = clean (join (b'/' ∷ []) (e ∷ elems))

-- `path.Join`
unfoldable pub path_join : List Str → Str
unfolding clean_joined drop_empty dec_str
path_join elems = clean_joined (drop_empty elems)
