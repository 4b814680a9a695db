-- ===== src/Kernel/Unicos.antt =====
-- The ids of the processes are unique, and so are the ones in NEW, as long as ULTIMO_PID has not gone
-- round.
use sist_op_tp2c.Base.{
  ℕ, ◌+◌, ◌<◌, ◌≤◌, ◌≡◌, ◌≢◌, List, [], ◌∷◌, ◌++◌, ◌==◌, add32, u32_mod, arith, All, Bool-cases,
  inl, inr,
}
use sist_op_tp2c.Kernel.Estados.{Kernel, quitar, inicializar_estados}
use sist_op_tp2c.Kernel.Alcanzable.{Alcanzable, inicio, paso}
use sist_op_tp2c.Kernel.Identidades.{Pids, pids}
use sist_op_tp2c.Kernel.Cambios.{Cambio, mismos, sin, nuevo, iniciado, Paso-CambiaA}

-- Different numbers, all below a bound.
abbrev pub UnicosBajo : ℕ → List ℕ → Type 0
UnicosBajo n [] = Unit {0}
UnicosBajo n (x ∷ xs) = (x < n) × All (λ y. x ≢ y) xs × UnicosBajo n xs

-- The ids in `lista_procesos` and in NEW are different, and were all given.
abbrev pub PidsUnicos : Pids → Type 0
PidsUnicos (ps, news, n) = UnicosBajo n ps × UnicosBajo n news

pub quitar-All : (P : ℕ → Type 0) (pid : ℕ) (xs : List ℕ) → All P xs → All P (quitar pid xs)
unfolding quitar
quitar-All P pid [] h = tt
quitar-All P pid (x ∷ xs) h = elim (Bool-cases (x == pid)) [
  | inl si ↦ rw si h.1
  | inr ni ↦ rw ni (h.0, quitar-All P pid xs h.1)
]

quitar-UnicosBajo : (n pid : ℕ) (xs : List ℕ) → UnicosBajo n xs → UnicosBajo n (quitar pid xs)
unfolding quitar
quitar-UnicosBajo n pid [] h = tt
quitar-UnicosBajo n pid (x ∷ xs) h = elim (Bool-cases (x == pid)) [
  | inl si ↦ rw si h.2
  | inr ni ↦ rw ni (h.0, quitar-All (λ y. x ≢ y) pid xs h.1, quitar-UnicosBajo n pid xs h.2)
]

pub snoc-All : (P : ℕ → Type 0) (xs : List ℕ) (x : ℕ) → All P xs → P x → All P (xs ++ x ∷ [])
snoc-All P [] x h p = (p, tt)
snoc-All P (y ∷ ys) x h p = (h.0, snoc-All P ys x h.1 p)

-- The next number, after the ones below it.
snoc-UnicosBajo : (n : ℕ) (xs : List ℕ) → UnicosBajo n xs → UnicosBajo (n + 1) (xs ++ n ∷ [])
snoc-UnicosBajo n [] h = (omega arith, tt, tt)
snoc-UnicosBajo n (x ∷ xs) h = (
  omega arith,
  snoc-All (λ y. x ≢ y) xs n h.1 (λ e. let menor = h.0 in omega arith),
  snoc-UnicosBajo n xs h.2,
)

pub Cambio-PidsUnicos :
    (k : Kernel) {q : Pids}
    → Cambio k q
    → k.siguiente_pid + 1 < u32_mod
    → PidsUnicos (pids k)
    → PidsUnicos q × (q.2 ≤ k.siguiente_pid + 1)
Cambio-PidsUnicos k mismos h u = (u, omega arith)
Cambio-PidsUnicos k (sin pid) h u = ((quitar-UnicosBajo _ pid _ u.0, u.1), omega arith)
Cambio-PidsUnicos k nuevo h u =
    let igual : add32 k.siguiente_pid 1 ≡ k.siguiente_pid + 1 = omega arith in
    rw igual ((snoc-UnicosBajo _ _ u.0, snoc-UnicosBajo _ _ u.1), omega arith)
Cambio-PidsUnicos k (iniciado pid) h u = ((u.0, quitar-UnicosBajo _ pid _ u.1), omega arith)

-- The steps of a run.
unfoldable pub pasos : {k : Kernel} → Alcanzable k → ℕ
pasos inicio = 0
pasos (paso a p) = pasos a + 1

contados :
    {k : Kernel} (a : Alcanzable k)
    → pasos a < u32_mod
    → PidsUnicos (pids k) × (k.siguiente_pid ≤ pasos a)
unfolding pasos inicializar_estados
contados inicio h = ((tt, tt), omega arith)
contados (paso {k = k} a p) h =
    let (u, menor) = contados a (omega arith) in
    let (v, sigue) = Cambio-PidsUnicos k (Paso-CambiaA p) (omega arith) u in (v, omega arith)

-- In each state that the kernel reaches from its start by fewer than 2 ^ 32 of its steps, in any
-- order, the processes have different ids, so have the ones that wait in NEW, and all of them are ids
-- given before.
pub Alcanzable-PidsUnicos :
    {k : Kernel} (a : Alcanzable k) → pasos a < u32_mod → PidsUnicos (pids k)
Alcanzable-PidsUnicos a h = (contados a h).0
