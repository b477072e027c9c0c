-- ===== src/Lists/Result.antt =====
-- What an append to a list gives: the new state, or the message of the `ERROR((…))` that ends the
-- program. A search that does not end, as in a list that runs in a circle, is `out_of_fuel`.
pub data Error : Type 0 where
  bad_args already_in_list name_taken too_many other_grid out_of_fuel : Error

pub data Result {ℓ} (A : Type ℓ) : Type ℓ where
  done : A → Result A
  failed : Error → Result A
