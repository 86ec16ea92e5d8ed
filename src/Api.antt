-- ===== src/Api.antt =====
-- src/api/lcw.hpp: the public types. A pointer is an address, and `none` is nullptr.
use lcw.Base.{ℕ, ℤ, Option}

pub data BackendT : Type 0 where
  auto lci mpi lci2 gex : BackendT

pub data OpT : Type 0 where
  send recv put put_signal : OpT

abbrev pub Ptr : Type 0
Ptr = Option ℕ

pub record RequestT : Type 0 where
  pub op : OpT
  pub device : Ptr
  pub rank : ℤ
  pub tag : ℤ
  pub buffer : Ptr
  pub length : ℤ
  pub user_context : ℕ
