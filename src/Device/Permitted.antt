-- ===== src/Device/Permitted.antt =====
-- What `filter_permitted` lets through: only elements that the holder permits and the reader requests.
use mathlib.Core.List.{Memᴰ}
use isomdl_elevenid.Common.{
  ◌≡◌, refl, Bool, true, List, [], ◌∷◌, some, find, All, All-map, Option-cases, Bool-cases, inl,
  inr,
}
use isomdl_elevenid.Common.Order.{Str, list_ord, nat_ord, ◌==◌}
use isomdl_elevenid.Common.Map.{Map, get, contains_key}
use isomdl_elevenid.Common.Sorted.{All-from_entries}
use isomdl_elevenid.Device.{ItemsRequest, RequestedItems, PermittedItems}
use isomdl_elevenid.Device.Filter.{filter, filter_namespaces, filter_documents, filter_permitted}

-- The first request for the document type lists the element.
abbrev pub IsRequested : RequestedItems → Str → Str → Str → Type 0
IsRequested request doc_type namespace element =
    (item : ItemsRequest) × (elements : Map Str Bool) × (find
        (λ (i : ItemsRequest). i.doc_type == doc_type) request
      ≡ some item)
    × (get namespace item.namespaces ≡ some elements)
    × (contains_key element elements ≡ true)

abbrev pub IsPermitted : PermittedItems → Str → Str → Str → Type 0
IsPermitted permitted doc_type namespace element =
    (namespaces : Map Str (List Str)) × (elements : List Str) × Memᴰ (doc_type, namespaces)
      permitted
    × Memᴰ (namespace, elements) namespaces
    × Memᴰ element elements

module _ (ns : Str) (elems : List Str) (requested : Map Str Bool) where
  filter-mem :
      (es : List Str)
      → ((e : Str) → Memᴰ e es → Memᴰ e elems)
      → All
          (λ e. (contains_key e requested ≡ true) × Memᴰ e elems)
          (filter (λ e. contains_key e requested) es)
  filter-mem [] inside = tt
  filter-mem (e ∷ es) inside = elim (Bool-cases (contains_key e requested)) [
    | inl h ↦ rw h ((h, inside e (Memᴰ.head refl)), filter-mem es (λ x m. inside x (Memᴰ.tail m)))
    | inr h ↦ rw h (filter-mem es (λ x m. inside x (Memᴰ.tail m)))
  ]

-- What stands in the filtered namespaces of one document type.
abbrev pub Kept : Map Str (Map Str Bool) → Map Str (List Str) → Str × List Str → Type 0
Kept requested namespaces (n, es) =
    (req : Map Str Bool) × (elems : List Str) × (get n requested ≡ some req)
    × Memᴰ (n, elems) namespaces
    × All (λ e. (contains_key e req ≡ true) × Memᴰ e elems) es

filter_namespaces-Kept :
    (requested : Map Str (Map Str Bool)) (namespaces all : Map Str (List Str))
    → ((x : Str × List Str) → Memᴰ x namespaces → Memᴰ x all)
    → All (Kept requested all) (filter_namespaces requested namespaces)
unfolding filter_namespaces
filter_namespaces-Kept requested [] all inside = tt
filter_namespaces-Kept requested ((n, es) ∷ ns) all inside = elim (Option-cases (get n requested)) [
  | inl h ↦ rw h (filter_namespaces-Kept requested ns all (λ x m. inside x (Memᴰ.tail m)))
  | inr (req, h) ↦ rw h (
    (req, es, h, inside (n, es) (Memᴰ.head refl), filter-mem n es req es (λ x m. m)),
    filter_namespaces-Kept requested ns all (λ x m. inside x (Memᴰ.tail m)),
  )
]

-- Each element that is let through, under its document type and namespace.
abbrev pub KeptDocument : RequestedItems → PermittedItems → Str × Map Str (List Str) → Type 0
KeptDocument request permitted (d, namespaces) =
    All
      (λ (n : Str × List Str).
        All (λ e. IsRequested request d n.0 e × IsPermitted permitted d n.0 e) n.1)
      namespaces

Kept-KeptDocument :
    (request : RequestedItems) (permitted : PermittedItems) (d : Str) (item : ItemsRequest)
    (nss : Map Str (List Str))
    → find (λ (i : ItemsRequest). i.doc_type == d) request ≡ some item
    → Memᴰ (d, nss) permitted
    → (n : Str × List Str) → Kept item.namespaces nss n
    → All (λ e. IsRequested request d n.0 e × IsPermitted permitted d n.0 e) n.1
Kept-KeptDocument request permitted d item nss found here (n, es) (req, elems, h, inside, kept) =
    All-map (λ e. (contains_key e req ≡ true) × Memᴰ e elems)
      (λ e. IsRequested request d n e × IsPermitted permitted d n e)
      (λ e k. ((item, req, found, h, k.0), (nss, elems, here, inside, k.1))) es kept

filter_documents-Kept :
    (request : RequestedItems) (documents permitted : PermittedItems)
    → ((x : Str × Map Str (List Str)) → Memᴰ x documents → Memᴰ x permitted)
    → All (KeptDocument request permitted) (filter_documents request documents)
unfolding filter_documents
filter_documents-Kept request [] permitted inside = tt
filter_documents-Kept request ((d, nss) ∷ ds) permitted inside =
    elim (Option-cases (find (λ (i : ItemsRequest). i.doc_type == d) request)) [
      | inl h ↦ rw h (filter_documents-Kept request ds permitted (λ x m. inside x (Memᴰ.tail m)))
      | inr (item, h) ↦ rw h (
        All-from_entries
            (λ (n : Str × List Str).
              All (λ e. IsRequested request d n.0 e × IsPermitted permitted d n.0 e) n.1)
            (filter_namespaces item.namespaces nss) []
            (All-map (Kept item.namespaces nss)
              (λ (n : Str × List Str).
                All (λ e. IsRequested request d n.0 e × IsPermitted permitted d n.0 e) n.1)
              (Kept-KeptDocument request permitted d item nss h (inside (d, nss) (Memᴰ.head refl)))
              (filter_namespaces item.namespaces nss)
              (filter_namespaces-Kept item.namespaces nss nss (λ x m. m)))
            tt,
        filter_documents-Kept request ds permitted (λ x m. inside x (Memᴰ.tail m)),
      )
    ]

-- Every element that `filter_permitted` lets through is permitted by the holder, and requested by the
-- first request for its document type.
pub filter_permitted_sound :
    (request : RequestedItems) (permitted : PermittedItems)
    → All (KeptDocument request permitted) (filter_permitted request permitted)
unfolding filter_permitted
filter_permitted_sound request permitted =
    All-from_entries (KeptDocument request permitted) (filter_documents request permitted) []
      (filter_documents-Kept request permitted permitted (λ x m. m)) tt
