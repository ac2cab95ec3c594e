-- ===== src/Gossip/Select.antt =====
-- The peers that `selectRandomPeers` of src/gossip/gossip_engine.cpp chooses.
use bright_chain_cpp.Prelude.{
  ℕ, zero, suc, ◌+◌, ◌≤◌, ◌<◌, ◌≡◌, ◌∙◌, refl, ◌⊎◌, inr, String, List, [], ◌∷◌, arith,
  if◌then◌else◌, ◌==◌, str_eq, length, get_or, set, take, min, length-set, length-take,
}
use bright_chain_cpp.Prelude.Int.{ℤ}
use bright_chain_cpp.Gossip.Config.{to_size}
use bright_chain_cpp.Gossip.Peers.{get_connected_peer_ids}
use bright_chain_cpp.Gossip.Engine.{Env, Engine, swap, shuffle, choose, select_random_peers}

-- How often a peer stands in a list.
abbrev pub occurrences : String → List String → ℕ
occurrences a [] = 0
occurrences a (x ∷ xs) = (if str_eq x a then 1 else 0) + occurrences a xs

occurrences-set :
    (a : String) (xs : List String) (i : ℕ) (v : String)
    → i < length xs
    → occurrences a (set xs i v) + (if str_eq (get_or xs i "") a then 1 else 0)
      ≡ occurrences a xs + (if str_eq v a then 1 else 0)
occurrences-set a [] i v h = absurd (omega arith)
occurrences-set a (x ∷ xs) zero v h = omega arith
occurrences-set a (x ∷ xs) (suc i) v h = omega (arith, occurrences-set a xs i v (omega arith))

get_or-set :
    (xs : List String) (i j : ℕ) (v : String)
    → i < length xs
    → get_or (set xs i v) j "" ≡ (if i == j then v else get_or xs j "")
get_or-set [] i j v h = absurd (omega arith)
get_or-set (x ∷ xs) zero zero v h = ground arith
get_or-set (x ∷ xs) zero (suc j) v h = ground arith
get_or-set (x ∷ xs) (suc i) zero v h = ground arith
get_or-set (x ∷ xs) (suc i) (suc j) v h = ground (arith, get_or-set xs i j v)

occurrences-swap :
    (a : String) (xs : List String) (i j : ℕ)
    → i < length xs
    → j < length xs
    → occurrences a (swap xs i j) ≡ occurrences a xs
unfolding swap
occurrences-swap a xs i j hi hj = ground (
  arith,
  occurrences-set a xs i (get_or xs j "") hi,
  occurrences-set a (set xs i (get_or xs j "")) j (get_or xs i ""),
  length-set xs i (get_or xs j ""),
  get_or-set xs i j (get_or xs j "") hi,
)

length-swap : (xs : List String) (i j : ℕ) → length (swap xs i j) ≡ length xs
unfolding swap
length-swap xs i j =
    length-set (set xs i (get_or xs j "")) j (get_or xs i "") ∙ length-set xs i (get_or xs j "")

length-shuffle : (dist : ℕ → ℕ) (i : ℕ) (xs : List String) → length (shuffle dist i xs) ≡ length xs
unfolding shuffle
length-shuffle dist zero xs = refl
length-shuffle dist (suc i) xs =
    length-shuffle dist i (swap xs (suc i) (dist (suc i))) ∙ length-swap xs (suc i) (dist (suc i))

occurrences-shuffle :
    (dist : ℕ → ℕ) (a : String) (i : ℕ) (xs : List String)
    → ((k : ℕ) → dist k ≤ k)
    → (i ≡ 0) ⊎ (i < length xs)
    → occurrences a (shuffle dist i xs) ≡ occurrences a xs
unfolding shuffle
occurrences-shuffle dist a zero xs law h = refl
occurrences-shuffle dist a (suc i) xs law h =
    let range : suc i < length xs = omega arith in
    occurrences-shuffle dist a i (swap xs (suc i) (dist (suc i))) law
      (inr (omega (arith, length-swap xs (suc i) (dist (suc i)))))
    ∙ occurrences-swap a xs (suc i) (dist (suc i)) range (omega (arith, law (suc i)))

occurrences-take :
    (a : String) (n : ℕ) (xs : List String) → occurrences a (take n xs) ≤ occurrences a xs
occurrences-take a zero xs = omega arith
occurrences-take a (suc n) [] = omega arith
occurrences-take a (suc n) (x ∷ xs) = omega (arith, occurrences-take a n xs)

-- A choice of peers: as many as the fanout asks for, or all that there are, and none more often
-- than it is connected.
pub record IsSelection (connected : List String) (fanout : ℤ) (targets : List String) : Type 0 where
  pub size : length targets ≡ min (to_size fanout) (length connected)
  pub distinct : (a : String) → occurrences a targets ≤ occurrences a connected

-- A uniform draw from 0 to i gives at most i.
abbrev pub IsUniform : Env → Type 0
IsUniform env = (n i : ℕ) → env.draw n i ≤ i

choose-IsSelection :
    (env : Env) (n : ℕ) (fanout : ℤ) (connected : List String)
    → IsUniform env
    → IsSelection connected fanout (choose env n fanout connected)
unfolding choose
choose-IsSelection env n fanout [] law = record { size = omega arith; distinct = λ a. omega arith }
choose-IsSelection env n fanout (id ∷ ids) law =
    let shuffled = shuffle (env.draw n) (length ids) (id ∷ ids) in
    let wanted = min (to_size fanout) (length (id ∷ ids)) in
    record {
      size =
          omega (
            arith,
            length-take wanted shuffled,
            length-shuffle (env.draw n) (length ids) (id ∷ ids),
          );
      distinct = λ a. omega (
        arith,
        occurrences-take a wanted shuffled,
        occurrences-shuffle (env.draw n) a (length ids) (id ∷ ids) (law n) (inr (omega arith)),
      );
    }

-- Where the draws of a shuffle are in range, `selectRandomPeers` chooses as many of the connected
-- peers as the fanout asks for, or all of them where there are fewer, and none more often than it is
-- connected.
pub select_random_peers-IsSelection :
    (env : Env) (e : Engine) (fanout : ℤ)
    → IsUniform env
    → IsSelection (get_connected_peer_ids e.peers) fanout (select_random_peers env e fanout).0
unfolding select_random_peers
select_random_peers-IsSelection env e fanout law =
    choose-IsSelection env e.selections fanout (get_connected_peer_ids e.peers) law
