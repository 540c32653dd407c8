-- ===== src/Device/Filter.antt =====
-- src/presentation/device.rs: `filter_permitted`.
use isomdl_elevenid.Common.{Bool, List, [], ◌∷◌, Option, none, some, find, push_some, if◌then◌else◌}
use isomdl_elevenid.Common.Order.{Str, list_ord, nat_ord, ◌==◌}
use isomdl_elevenid.Common.Map.{Map, get, from_entries, contains_key}
use isomdl_elevenid.Device.{ItemsRequest, RequestedItems, PermittedItems}

-- `iter().filter(p)`
abbrev pub filter {ℓ} : {A : Type ℓ} → (A → Bool) → List A → List A
filter p [] = []
filter p (x ∷ xs) = let rest = filter p xs in if p x then x ∷ rest else rest

abbrev pub requested_elements : Str → List Str → Option (Map Str Bool) → Option (Str × List Str)
requested_elements namespace elements none = none
requested_elements namespace elements (some requested) =
    some (namespace, filter (λ e. contains_key e requested) elements)

unfoldable pub filter_namespaces : Map Str (Map Str Bool) → Map Str (List Str) → Map Str (List Str)
filter_namespaces requested [] = []
filter_namespaces requested ((namespace, elements) ∷ namespaces) =
    push_some (requested_elements namespace elements (get namespace requested))
      (filter_namespaces requested namespaces)

abbrev pub requested_namespaces :
    Str → Map Str (List Str) → Option ItemsRequest → Option (Str × Map Str (List Str))
requested_namespaces doc_type namespaces none = none
requested_namespaces doc_type namespaces (some item) =
    some (doc_type, from_entries (filter_namespaces item.namespaces namespaces) [])

unfoldable pub filter_documents : RequestedItems → PermittedItems → PermittedItems
filter_documents request [] = []
filter_documents request ((doc_type, namespaces) ∷ permitted) =
    push_some
      (requested_namespaces doc_type namespaces
        (find (λ (i : ItemsRequest). i.doc_type == doc_type) request))
      (filter_documents request permitted)

unfoldable pub filter_permitted : RequestedItems → PermittedItems → PermittedItems
filter_permitted request permitted = from_entries (filter_documents request permitted) []
