-- ===== src/Disk/Fat/File/Turn.antt =====
-- One turn of the loop of a read: the bytes that it copies, and where it stands after it.
use zenos.Common.{
  ℕ, suc, ◌+◌, ◌-◌, ◌*◌, ◌<◌, ◌≤◌, ◌≡◌, inl, inr, sym, ap, subst, ◌∙◌, min, true, false, ◌&&◌, List,
  arith, ltb, ltb→lt, not_ltb→le, Bool-cases, length, get_or,
}
use zenos.Disk.Device.{BlockDevice}
use zenos.Disk.Device.Reliable.{Disk, range, length-range, get_or-range}
use zenos.Disk.Fat.Bpb.{Volume, bytes_per_cluster}
use zenos.Disk.Fat.Table.{is_eoc}
use zenos.Disk.Fat.Table.Place.{Geometry}
use zenos.Disk.Fat.File.{ReadState, copy_into, slice, to_copy, copied, more_to_read}
use zenos.Disk.Fat.File.Copy.{length-copy_into, copy_into-outside, copy_into-inside, slice-range}
use zenos.Disk.Fat.File.Chain.{cluster_start, nth, content, Stored, content-at}

module _ {S : Type 0} {dev : BlockDevice S} (disk : Disk dev) (v : Volume)
    (g : Geometry v disk.size) (img : ℕ → ℕ) (first file_size : ℕ)
    (st : Stored v disk.size img first file_size) where
  -- Where the loop stands in the chain.
  pub record At (cursor : ℕ) (r : ReadState) : Type 0 where
    pub k : ℕ
    pub place : cursor + r.bytes_read ≡ k * bytes_per_cluster v.bpb + r.offset_in_cluster
    pub within : r.offset_in_cluster < bytes_per_cluster v.bpb
    pub here : r.cluster ≡ nth v img k first

  -- What a part of the loop has put into the buffer.
  pub record Got (cursor : ℕ) (r r' : ReadState) : Type 0 where
    pub grows : r.bytes_read ≤ r'.bytes_read
    pub room : r'.bytes_read ≤ length r'.buf
    pub in_file : cursor + r'.bytes_read ≤ file_size
    pub same_length : length r'.buf ≡ length r.buf
    pub before : (i : ℕ) → i < r.bytes_read → get_or r'.buf i 0 ≡ get_or r.buf i 0
    pub read_bytes :
        (i : ℕ)
        → r.bytes_read ≤ i
        → i < r'.bytes_read
        → get_or r'.buf i 0 ≡ content v img first (cursor + i)
    pub after : (i : ℕ) → r'.bytes_read ≤ i → get_or r'.buf i 0 ≡ get_or r.buf i 0

  pub Got-trans :
      (cursor : ℕ) (a b c : ReadState) → Got cursor a b → Got cursor b c → Got cursor a c
  Got-trans cursor a b c p q = record {
    grows = omega (arith, p.grows, q.grows);
    room = q.room;
    in_file = q.in_file;
    same_length = q.same_length ∙ p.same_length;
    before = λ i h. q.before i (omega (arith, p.grows)) ∙ p.before i h;
    read_bytes = λ i lo hi. elim (Bool-cases (ltb i b.bytes_read)) [
      | inl e ↦ q.before i (ltb→lt _ _ e) ∙ p.read_bytes i lo (ltb→lt _ _ e)
      | inr e ↦ q.read_bytes i (not_ltb→le _ _ e) hi
    ];
    after = λ i h. q.after i h ∙ p.after i (omega (arith, q.grows));
  }

  -- The bytes of the cluster that the loop stands at.
  abbrev pub cluster_bytes : ReadState → List ℕ
  cluster_bytes r = range img (cluster_start v r.cluster) (bytes_per_cluster v.bpb)

  copied_byte :
      (cursor : ℕ) (r : ReadState) (a : At cursor r) (i : ℕ) {tc : ℕ} (src : List ℕ)
      → length src ≡ tc
      → src ≡ range img (cluster_start v r.cluster + r.offset_in_cluster) tc
      → r.bytes_read ≤ i
      → i < r.bytes_read + tc
      → r.offset_in_cluster + tc ≤ bytes_per_cluster v.bpb
      → r.bytes_read + tc ≤ length r.buf
      → get_or (copy_into r.buf r.bytes_read src) i 0 ≡ content v img first (cursor + i)
  copied_byte cursor r a i {tc} src l e lo hi w room =
      let j = i - r.bytes_read in
      let o = r.offset_in_cluster in
      let q : i ≡ r.bytes_read + j = omega arith in
      let m : a.k * bytes_per_cluster v.bpb + (o + j) ≡ cursor + i = omega (arith, a.place) in
      let n : cluster_start v r.cluster + o + j ≡ cluster_start v (nth v img a.k first) + (o + j) =
        rw (← a.here) (omega arith) in
      ap (λ t. get_or (copy_into r.buf r.bytes_read src) t 0) q
      ∙ copy_into-inside r.buf r.bytes_read src j (omega arith) (omega arith)
      ∙ ap (λ xs. get_or xs j 0) e
      ∙ get_or-range img (cluster_start v r.cluster + o) tc j 0 (omega arith)
      ∙ ap img n
      ∙ sym (content-at v img first a.k (o + j) (omega arith))
      ∙ ap (content v img first) m

  pub copied-Got :
      (cursor : ℕ) (r : ReadState)
      → At cursor r
      → r.bytes_read ≤ length r.buf
      → cursor + r.bytes_read ≤ file_size
      → Got cursor r (copied v cursor file_size (cluster_bytes r) r)
  copied-Got cursor r a room inside =
      let tc = to_copy v cursor file_size r in
      let src = slice (cluster_bytes r) r.offset_in_cluster tc in
      let e : src ≡ range img (cluster_start v r.cluster + r.offset_in_cluster) tc =
        slice-range img (cluster_start v r.cluster) (bytes_per_cluster v.bpb) r.offset_in_cluster tc
          (omega (arith, a.within)) in
      let l : length src ≡ tc = ap length e ∙ length-range img _ tc in
      record {
        grows = omega arith;
        room = omega (arith, length-copy_into r.buf r.bytes_read src);
        in_file = omega arith;
        same_length = length-copy_into r.buf r.bytes_read src;
        before = λ i h. copy_into-outside r.buf r.bytes_read src i (inl h);
        read_bytes = λ i lo hi. copied_byte cursor r a i src l e lo hi (omega arith) (omega arith);
        after = λ i h. copy_into-outside r.buf r.bytes_read src i (inr (omega (arith, l)));
      }

  full_turn :
      (cursor : ℕ) (r : ReadState) (bytes : List ℕ)
      → more_to_read cursor file_size (copied v cursor file_size bytes r) ≡ true
      → (to_copy v cursor file_size r ≡ bytes_per_cluster v.bpb - r.offset_in_cluster)
        × (cursor + r.bytes_read + to_copy v cursor file_size r < file_size)
  full_turn cursor r bytes m =
      numbers _ r.bytes_read (length r.buf) _ (length-copy_into r.buf r.bytes_read _) m
    where
      numbers :
          (a br len len' : ℕ)
          → len' ≡ len
          → (ltb (br + min (min a (file_size - cursor - br)) (len - br)) len'
              && ltb (cursor + (br + min (min a (file_size - cursor - br)) (len - br))) file_size)
            ≡ true
          → (min (min a (file_size - cursor - br)) (len - br) ≡ a)
            × (cursor + br + min (min a (file_size - cursor - br)) (len - br) < file_size)
      numbers a br len len' q m = ground arith

  -- After a turn that has not filled the buffer or reached the end of the file, the loop stands at the
  -- next cluster, and the chain has not ended.
  pub next-At :
      (cursor : ℕ) (r : ReadState) (a : At cursor r) (bytes : List ℕ) (next : ℕ)
      → next ≡ nth v img (suc a.k) first
      → more_to_read cursor file_size (copied v cursor file_size bytes r) ≡ true
      → (is_eoc v.kind next ≡ false)
        × At cursor (record (copied v cursor file_size bytes r) { cluster = next })
  next-At cursor r a bytes next e m =
      let (t, l) = full_turn cursor r bytes m in
      let p : cursor + (r.bytes_read + to_copy v cursor file_size r)
          ≡ suc a.k * bytes_per_cluster v.bpb + 0 =
        omega (arith, a.place, a.within, one_more a.k (bytes_per_cluster v.bpb)) in
      let q : (a.k + 1) * bytes_per_cluster v.bpb < file_size =
        omega (
          arith,
          one_more a.k (bytes_per_cluster v.bpb),
          also_more a.k (bytes_per_cluster v.bpb),
        ) in
      (
        rw e (
            subst (λ j. is_eoc v.kind (nth v img j first) ≡ false) (add_one a.k)
              (st.goes_on a.k q)),
        record { k = suc a.k; place = p; within = st.some_bytes; here = e },
      )
    where
      add_one : (k : ℕ) → k + 1 ≡ suc k
      add_one k = omega arith

      one_more : (k b : ℕ) → suc k * b ≡ k * b + b
      one_more k b = grind arith

      also_more : (k b : ℕ) → (k + 1) * b ≡ k * b + b
      also_more k b = grind arith
