-- ===== src/Digest/Hash.antt =====
-- alg/sha256.c, alg/sha1.c, alg/md5.c: what the keyed hashes use of a hash, and what its functions
-- promise to them.
use libcperciva.Prelude.{ℕ, ◌≡◌, List, [], ◌++◌, length}

pub record Hash : Type 1 where
  pub Ctx : Type 0
  pub init : Ctx → Ctx
  pub update : Ctx → List ℕ → Ctx
  -- The context afterwards, and the digest.
  pub final : Ctx → Ctx × List ℕ

-- `Takes c m` says that the bytes `m` were fed in since `c` was initialized; `Ready c` is what
-- holds of any context in memory.
pub record Lawful (h : Hash) (hash : List ℕ → List ℕ) (size : ℕ) : Type 1 where
  pub Ready : h.Ctx → Type 0
  pub Takes : h.Ctx → List ℕ → Type 0
  pub init-Takes : (c : h.Ctx) → Ready c → Takes (h.init c) []
  pub update-Takes : (c : h.Ctx) (m src : List ℕ) → Takes c m → Takes (h.update c src) (m ++ src)
  pub final_lem : (c : h.Ctx) (m : List ℕ) → Takes c m → (h.final c).1 ≡ hash m
  pub final-Ready : (c : h.Ctx) (m : List ℕ) → Takes c m → Ready (h.final c).0
  pub length-hash : (m : List ℕ) → length (hash m) ≡ size
