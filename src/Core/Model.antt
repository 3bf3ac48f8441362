-- ===== src/Core/Model.antt =====
-- crates/core/src/model.rs
use pereprava.Prelude.{ℕ, Bool, List, Option}
use pereprava.Prelude.Text.{Text}

pub record Entry : Type 0 where
  pub handle : ℕ
  pub parent : ℕ
  pub name : Text
  pub is_dir : Bool
  pub size : ℕ

pub record StorageSummary : Type 0 where
  pub id : ℕ
  pub description : Text
  pub capacity : ℕ
  pub free : ℕ
  pub writable : Bool

pub record DeviceSummary : Type 0 where
  pub vendor_id : ℕ
  pub product_id : ℕ
  pub manufacturer : Option Text
  pub product : Option Text
  pub serial : Option Text
  pub speed : Option Text
  pub firmware : Option Text
  pub storages : List StorageSummary

pub record Progress : Type 0 where
  pub total : ℕ
  pub done : ℕ
