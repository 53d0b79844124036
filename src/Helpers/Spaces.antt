-- ===== src/Helpers/Spaces.antt =====
-- src/domain/game/rules/helpers.py: the ownership record of a position, and the write to it.
use monopoly_be.Prelude.{
  ℕ, Option, none, some, List, [], ◌∷◌, ◌==◌, if◌then◌else◌, Result, ok, key_error, or_raise, ◌>>◌,
}
use monopoly_be.Schema.{SpaceOwnership}

unfoldable pub find_ownership : List SpaceOwnership → ℕ → Option SpaceOwnership
find_ownership [] position = none
find_ownership (o ∷ spaces) position =
    if o.position == position then some o else find_ownership spaces position

-- `space_at`: `spaces[space_index(spaces, position)]`
unfoldable pub space_at : List SpaceOwnership → ℕ → Result SpaceOwnership
space_at spaces position = or_raise (find_ownership spaces position) key_error

-- `spaces[space_index(spaces, position)] = ownership`, at the first record of the position.
unfoldable pub write_space : List SpaceOwnership → ℕ → SpaceOwnership → List SpaceOwnership
write_space [] position ownership = []
write_space (o ∷ spaces) position ownership =
    if o.position == position then ownership ∷ spaces else o ∷ write_space spaces position ownership

unfoldable pub replace_space :
    List SpaceOwnership → ℕ → SpaceOwnership → Result (List SpaceOwnership)
unfolding space_at
replace_space spaces position ownership = do
  space_at spaces position
  ok (write_space spaces position ownership)
