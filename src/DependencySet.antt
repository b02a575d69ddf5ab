-- ===== src/DependencySet.antt =====
-- src/tableau/dependency_set.rs: dependency sets. An `Arc` is modelled by the address of its allocation
-- together with the contents, which never change.
pub mod Points
pub mod Canonical
pub mod Permanent
pub mod Union
pub mod Factory
pub mod Valid
pub mod Operations
pub mod Sharing
pub mod Maximum
pub mod Usage
pub mod Reachable
pub mod Tracking
pub mod Interning
pub mod Capacity
use hermit_rs.Base.{ℕ, List}
use hermit_rs.Base.Int.{ℤ}

pub record PermanentDependencySet : Type 0 where
  pub address : ℕ
  pub points : List ℤ

mutual
  pub data DependencySet : Type 0 where
    permanent : PermanentDependencySet → DependencySet
    union : UnionDependencySet → DependencySet

  -- The vector of the constituents.
  pub data UnionDependencySet : Type 0 where
    end : UnionDependencySet
    constituents : DependencySet → UnionDependencySet → UnionDependencySet
