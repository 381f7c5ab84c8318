-- ===== src/Engine/Migration/Removal.antt =====
-- engine/migration.ts: no older store is removed before what it held is in the chunk database.
use edgeproc_browser.Base.Effects.{Fixes}
use edgeproc_browser.Base.Returns.{Returns}
use edgeproc_browser.Engine.Fault.{Fault}
use edgeproc_browser.Engine.Platform.{Platform}
use edgeproc_browser.Engine.Migration.{LegacySource}

module _ {W X : Type 0} (removed : W → X) where
  -- Reading a source changes nothing that tells whether stores have been removed.
  pub record IsReadOnly (source : LegacySource W) : Type 0 where
    pub pointers : Fixes removed source.read_pointers
    pub snapshot : Fixes removed source.read
