-- ===== src/Disk/Fat/Table/Writing.antt =====
-- A write of an entry changes that entry of the table and no other, and nothing beyond the tables.
use zenos.Common.{
  ℕ, zero, suc, ◌+◌, ◌-◌, ◌*◌, ◌%◌, ◌<◌, ◌≤◌, ◌≡◌, ◌≢◌, inl, inr, refl, sym, ap, subst, ◌∙◌, List,
  arith, length, get_or, get_or-past, ltb→lt, not_ltb→le, ltb, Bool-cases,
}
use zenos.Disk.Device.{BlockDevice, done, ◌>>◌, write_at, w32}
use zenos.Disk.Device.Reliable.{
  Disk, Does, Does-next, write_at-Does, range, patch, length-range, patch-outside, patch-inside,
}
use zenos.Disk.Fat.Bpb.{FatType, fat12, fat16, fat32, fat_size, Volume}
use zenos.Disk.Fat.Table.{
  fat_sector, offset_in_sector, byte_offset, put_entry, read_sector, write_sector, sector_buf,
  write_mirrors, write_entry,
}
use zenos.Disk.Fat.Table.Place.{
  Geometry, InFat, InFat-Placed, InFat-MirrorPlaced, entry_width, entry_start, entry_place,
  sector_start, fat_start, first_end, tables_end, first_last, mirror_start,
}
use zenos.Disk.Fat.Table.Reading.{entry_at, entry_value, read_sector-Does}
use zenos.Disk.Fat.Table.Poke.{put_at, put_entry-put_at, length-put_entry}
use zenos.Disk.Fat.Table.Slots.{
  AllBytes, entry_limit, put_at-same, put_at-apart, put_at-AllBytes, put_at-outside,
}

-- The bytes of the first table, of all in front of it, and of all behind the tables stay.
pub record KeepsFirst (v : Volume) (img img' : ℕ → ℕ) : Type 0 where
  pub in_first : (j : ℕ) → j < first_end v → img' j ≡ img j
  pub behind : (j : ℕ) → tables_end v ≤ j → img' j ≡ img j
  pub bytes : AllBytes img → AllBytes img'

patch-AllBytes :
    (img : ℕ → ℕ) (o : ℕ) (buf : List ℕ)
    → ((k : ℕ) → get_or buf k 0 < 256)
    → AllBytes img
    → AllBytes (patch img o buf)
patch-AllBytes img o buf h b i = ground (arith, h (i - o), b i)

entry_value-agree :
    (k : FatType) (c i : ℕ) (a b : ℕ → ℕ)
    → ((j : ℕ) → i ≤ j → j < i + entry_width k → a j ≡ b j)
    → entry_value k c a i ≡ entry_value k c b i
entry_value-agree fat12 c i a b h =
    rw (h i (omega arith) (omega arith), h (i + 1) (omega arith) (omega arith)) refl
entry_value-agree fat16 c i a b h =
    rw (h i (omega arith) (omega arith), h (i + 1) (omega arith) (omega arith)) refl
entry_value-agree fat32 c i a b h =
    rw
      (
        h i (omega arith) (omega arith),
        h (i + 1) (omega arith) (omega arith),
        h (i + 2) (omega arith) (omega arith),
        h (i + 2 + 1) (omega arith) (omega arith),
      )
      refl

patch-KeepsFirst :
    (v : Volume) (img : ℕ → ℕ) (o : ℕ) (buf : List ℕ)
    → first_end v ≤ o
    → o + length buf ≤ tables_end v
    → ((k : ℕ) → get_or buf k 0 < 256)
    → KeepsFirst v img (patch img o buf)
patch-KeepsFirst v img o buf lo hi h = record {
  in_first = λ j q. patch-outside img o buf j (inl (omega arith));
  behind = λ j q. patch-outside img o buf j (inr (omega arith));
  bytes = patch-AllBytes img o buf h;
}

KeepsFirst-trans :
    (v : Volume) (a b c : ℕ → ℕ) → KeepsFirst v a b → KeepsFirst v b c → KeepsFirst v a c
KeepsFirst-trans v a b c p q = record {
  in_first = λ j h. q.in_first j h ∙ p.in_first j h;
  behind = λ j h. q.behind j h ∙ p.behind j h;
  bytes = λ h. q.bytes (p.bytes h);
}

module _ {S : Type 0} {dev : BlockDevice S} (disk : Disk dev) (v : Volume)
    (g : Geometry v disk.size) where
  write_mirrors-Keeps :
      (left i c : ℕ) (buf : List ℕ) (s : S)
      → InFat v c
      → 1 ≤ i
      → i + left ≤ v.bpb.num_fats
      → length buf ≡ v.bpb.bytes_per_sector
      → ((k : ℕ) → get_or buf k 0 < 256)
      → (img' : ℕ → ℕ) × Does disk (write_mirrors dev v left i (fat_sector v c) buf) s tt img'
        × KeepsFirst v (disk.image s) img'
  unfolding write_mirrors
  write_mirrors-Keeps zero i c buf s f lo hi l h = (
    disk.image s,
    (s, refl, refl),
    record { in_first = λ j q. refl; behind = λ j q. refl; bytes = λ b. b },
  )
  write_mirrors-Keeps (suc left) i c buf s f lo hi l h =
      let m = InFat-MirrorPlaced v disk.size c i g f lo (omega arith) in
      let (s1, e1, i1) = write_at-Does disk (mirror_start v c i) buf s (rw l m.mirror_fits) in
      let (img', d, k) =
        write_mirrors-Keeps left (i + 1) c buf s1 f (omega arith) (omega arith) l h in
      let w : write_at dev (byte_offset v (w32 (fat_sector v c + w32 (i * fat_size v.bpb)))) buf s
          ≡ (s1, done tt) =
        rw m.mirror_at e1 in
      (
        img',
        Does-next disk (write_sector dev v (w32 (fat_sector v c + w32 (i * fat_size v.bpb))) buf)
            (λ u. write_mirrors dev v left (i + 1) (fat_sector v c) buf) s s1 w d,
        KeepsFirst-trans v (disk.image s) (disk.image s1) img'
            (subst (KeepsFirst v (disk.image s)) (sym i1) (
              patch-KeepsFirst v (disk.image s) (mirror_start v c i) buf m.after_first
                (rw l m.before_end) h))
            k,
      )

  -- The new sector of a cluster's entry, and the disk with it.
  abbrev new_sector : ℕ → ℕ → (ℕ → ℕ) → List ℕ
  new_sector c value img =
      put_entry v.kind c (offset_in_sector v c) value
        (range img (sector_start v c) v.bpb.bytes_per_sector)

  new_sector_lem :
      (c value : ℕ) (img : ℕ → ℕ)
      → InFat v c
      → entry_place v c + entry_width v.kind ≤ v.bpb.bytes_per_sector
      → patch img (sector_start v c) (new_sector c value img)
        ≡ put_at v.kind c value img (entry_start v c)
  new_sector_lem c value img f h =
      let p = InFat-Placed v disk.size c g f in
      rw p.place_at (
        put_entry-put_at v.kind c value img (sector_start v c) v.bpb.bytes_per_sector
          (entry_place v c) h
        ∙ ap (put_at v.kind c value img) p.place_sum)

  length-new_sector :
      (c value : ℕ) (img : ℕ → ℕ) → length (new_sector c value img) ≡ v.bpb.bytes_per_sector
  length-new_sector c value img =
      length-put_entry v.kind c value (offset_in_sector v c) _
      ∙ length-range img (sector_start v c) v.bpb.bytes_per_sector

  new_sector_bytes :
      (c value : ℕ) (img : ℕ → ℕ)
      → InFat v c
      → entry_place v c + entry_width v.kind ≤ v.bpb.bytes_per_sector
      → AllBytes img
      → (k : ℕ) → get_or (new_sector c value img) k 0 < 256
  new_sector_bytes c value img f h b k =
      let l = length-new_sector c value img in
      elim (Bool-cases (ltb k (length (new_sector c value img)))) [
        | inl e ↦
            let q = patch-inside img (sector_start v c) (new_sector c value img) k (ltb→lt _ _ e) in
            let n = ap (λ (t : ℕ → ℕ). t (sector_start v c + k)) (new_sector_lem c value img f h) in
            omega (
              arith,
              q,
              n,
              put_at-AllBytes v.kind c value img (entry_start v c) b (sector_start v c + k),
            )
        | inr e ↦ omega (arith, get_or-past (new_sector c value img) k 0 (not_ltb→le _ _ e))
      ]

  -- What a write of an entry leaves: the entry and no other changed, the bytes behind the tables kept.
  pub record Written (c value : ℕ) (img img' : ℕ → ℕ) : Type 0 where
    pub same : entry_at v img' c ≡ value % entry_limit v.kind
    pub others : (d : ℕ) → InFat v d → c ≢ d → entry_at v img' d ≡ entry_at v img d
    pub data_kept : (j : ℕ) → tables_end v ≤ j → img' j ≡ img j
    pub still_bytes : AllBytes img'

  KeepsFirst-Written :
      (c value : ℕ) (img img' : ℕ → ℕ)
      → InFat v c
      → AllBytes img
      → KeepsFirst v (put_at v.kind c value img (entry_start v c)) img'
      → Written c value img img'
  KeepsFirst-Written c value img img' f b k = record {
    same =
        entry_value-agree v.kind c (entry_start v c) img' _ (λ j lo hi. k.in_first j (omega arith))
        ∙ put_at-same v.kind c value img (entry_start v c) b;
    others = λ d fd n.
        entry_value-agree v.kind d (entry_start v d) img' _ (λ j lo hi. k.in_first j (omega arith))
        ∙ put_at-apart v.kind c d value img (fat_start v) b n;
    data_kept = λ j h.
        k.behind j h
        ∙ put_at-outside v.kind c value img (entry_start v c) j
            (inr (omega (arith, first_last v g)));
    still_bytes = k.bytes (put_at-AllBytes v.kind c value img (entry_start v c) b);
  }

  -- Writing the entry of a cluster that does not span two sectors sets it, cut to the width of an
  -- entry, and keeps all other entries of the table and all bytes behind the tables.
  pub write_entry-Writes :
      (c value : ℕ) (s : S)
      → InFat v c
      → entry_place v c + entry_width v.kind ≤ v.bpb.bytes_per_sector
      → AllBytes (disk.image s)
      → (img' : ℕ → ℕ) × Does disk (write_entry dev v c value) s tt img'
        × Written c value (disk.image s) img'
  unfolding write_entry
  write_entry-Writes c value s f h b =
      let p = InFat-Placed v disk.size c g f in
      let img = disk.image s in
      let l = length-new_sector c value img in
      let (s1, e1, i1) = read_sector-Does disk v g c s f in
      let (s2, e2, i2) =
        write_at-Does disk (sector_start v c) (new_sector c value img) s1 (rw l p.sector_fits) in
      let w : write_at dev (byte_offset v (fat_sector v c)) (new_sector c value img) s1
          ≡ (s2, done tt) =
        rw p.sector_at e2 in
      let (img', d, k) =
        write_mirrors-Keeps (v.bpb.num_fats - 1) 1 c (new_sector c value img) s2 f (omega arith)
          (omega (arith, g.some_fat)) l (new_sector_bytes c value img f h b) in
      let i3 : disk.image s2 ≡ put_at v.kind c value img (entry_start v c) =
        i2 ∙ rw i1 (new_sector_lem c value img f h) in
      (
        img',
        Does-next disk (read_sector dev v (fat_sector v c) (sector_buf dev v))
            (λ x.
              write_sector dev v (fat_sector v c)
                (put_entry v.kind c (offset_in_sector v c) value x)
              >> write_mirrors dev v (v.bpb.num_fats - 1) 1 (fat_sector v c)
                  (put_entry v.kind c (offset_in_sector v c) value x))
            s s1 e1
            (Does-next disk (write_sector dev v (fat_sector v c) (new_sector c value img))
              (λ x.
                write_mirrors dev v (v.bpb.num_fats - 1) 1 (fat_sector v c)
                  (new_sector c value img))
              s1 s2 w d),
        KeepsFirst-Written c value img img' f b (subst (λ t. KeepsFirst v t img') i3 k),
      )
