-- ===== src/Examples/Lookups.antt =====
-- The lookups in the descriptor of a message with the fields 1 and 3 and of a service with one
-- method, and in a table with negative values.
use mathlib.Core.Path.{subst}
use protobuf_c.Base.{
  ℕ, zero, suc, ◌+◌, ◌-◌, ◌^◌, ◌<◌, ◌≡◌, refl, arith, some, Option, List, [], ◌∷◌, get_elem?, false,
  IsU32,
}
use protobuf_c.Message.{FieldDescriptor, MessageDescriptor, required, repeated, int32, string}
use protobuf_c.Lookup.{
  done, bias, after, int_range_lookup, message_descriptor_get_field,
  message_descriptor_get_field_by_name, service_descriptor_get_method_by_name, MethodDescriptor,
  ServiceDescriptor, compare_name, name_through, search_loop, last_entry,
}
use protobuf_c.Lookup.Search.{Returns}
use protobuf_c.Lookup.Ranges.{InRange, first, size, index_at, Locates, int_range_lookup-Locates}
use protobuf_c.Lookup.Numbers.{IsNumberIndex, get_field-Picks}
use protobuf_c.Lookup.Descriptors.{
  Picks, IsNameIndex, some_inj, get_field_by_name-Picks, get_method_by_name-Picks,
}
use protobuf_c.Examples.Tables.{
  below_two, below_pair, below_one, signed_ranges, signed_ranges-IsValid, field_ranges,
  field_ranges-IsValid,
}

int_range_lookup-Locates_example :
    Returns (int_range_lookup 2 signed_ranges (2 ^ 32 - 2)) (Locates 2 signed_ranges (2 ^ 32 - 2))
int_range_lookup-Locates_example =
    int_range_lookup-Locates 2 signed_ranges (2 ^ 32 - 2) signed_ranges-IsValid (omega arith)

-- The index of -2.
lookup_of_minus_two : int_range_lookup 2 signed_ranges (2 ^ 32 - 2) ≡ done (some 1)
unfolding int_range_lookup search_loop last_entry
lookup_of_minus_two = refl

abbrev pub field_b : FieldDescriptor
field_b = record {
  name = b'b' ∷ [];
  id = 1;
  label = required;
  type = int32;
  default_value = 0;
  packed = false;
}

abbrev pub field_a : FieldDescriptor
field_a = record {
  name = b'a' ∷ [];
  id = 3;
  label = repeated;
  type = string;
  default_value = 0;
  packed = false;
}

abbrev pub two_fields : MessageDescriptor
two_fields = record {
  fields = field_b ∷ field_a ∷ [];
  fields_sorted_by_name = 1 ∷ 0 ∷ [];
  n_field_ranges = 2;
  field_ranges = field_ranges;
}

-- The first of two, the second of two, and no other.
each_field :
    (P : ℕ → FieldDescriptor → Type 0)
    → P 0 field_b
    → P 1 field_a
    → (j : ℕ) (f : FieldDescriptor) → get_elem? two_fields.fields j ≡ some f
    → P j f
each_field P p q zero f e = subst (P 0) (some_inj e) p
each_field P p q (suc zero) f e = subst (P 1) (some_inj e) q
each_field P p q (suc (suc j)) f e = cc

listed_field :
    (i k : ℕ)
    → i < 2
    → k < size field_ranges i
    → (f : FieldDescriptor) × (get_elem? two_fields.fields (index_at field_ranges i + k) ≡ some f)
      × (bias f.id ≡ first field_ranges i + k)
listed_field zero zero h below = (field_b, refl, omega arith)
listed_field zero (suc k) h below = absurd (omega arith)
listed_field (suc zero) zero h below = (field_a, refl, omega arith)
listed_field (suc zero) (suc k) h below = absurd (omega arith)
listed_field (suc (suc i)) k h below = absurd (omega arith)

pub two_fields-IsNumberIndex :
    IsNumberIndex (λ (f : FieldDescriptor). f.id) two_fields.fields 2 field_ranges
two_fields-IsNumberIndex = record {
  valid = field_ranges-IsValid;
  number_fits = each_field (λ j f. IsU32 f.id) (omega arith) (omega arith);
  listed = listed_field;
  complete =
      each_field (λ j f. (i : ℕ) × (i < 2) × InRange field_ranges i f.id)
        (0, omega arith, (omega arith, omega arith)) (1, omega arith, (omega arith, omega arith));
}

get_field-Picks_example :
    Returns (message_descriptor_get_field two_fields 3) (Picks (λ f. f.id ≡ 3) two_fields.fields)
get_field-Picks_example = get_field-Picks two_fields 3 two_fields-IsNumberIndex (omega arith)

abbrev names : ℕ → Option (List ℕ)
names = name_through (λ f. f.name) two_fields.fields two_fields.fields_sorted_by_name

names_ascend :
    (i j : ℕ) (a b : List ℕ)
    → i < j
    → j < 2
    → names i ≡ some a
    → names j ≡ some b
    → compare_name a b ≡ after
names_ascend i j a b h k =
    below_pair (λ i j. names i ≡ some a → names j ≡ some b → compare_name a b ≡ after)
      (λ p q.
        subst (λ a. compare_name a b ≡ after) (some_inj p)
          (subst (λ b. compare_name (b'a' ∷ []) b ≡ after) (some_inj q)
            (unfold compare_name in refl)))
      i j h k

two_fields-IsNameIndex :
    IsNameIndex (λ (f : FieldDescriptor). f.name) two_fields.fields two_fields.fields_sorted_by_name
two_fields-IsNameIndex = record {
  sorted = record {
    named =
        below_two (λ i. (name : List ℕ) × (names i ≡ some name)) (b'a' ∷ [], refl)
          (b'b' ∷ [], refl);
    ascending = names_ascend;
  };
  complete =
      below_two (λ j. (i : ℕ) × (i < 2) × (get_elem? two_fields.fields_sorted_by_name i ≡ some j))
        (1, omega arith, refl) (0, omega arith, refl);
}

get_field_by_name-Picks_example :
    Returns
      (message_descriptor_get_field_by_name two_fields (b'a' ∷ []))
      (Picks (λ f. f.name ≡ b'a' ∷ []) two_fields.fields)
get_field_by_name-Picks_example =
    get_field_by_name-Picks two_fields (b'a' ∷ []) two_fields-IsNameIndex

abbrev one_method : ServiceDescriptor
one_method = record {
  methods = record { name = b'm' ∷ []; input = two_fields; output = two_fields } ∷ [];
  method_indices_by_name = 0 ∷ [];
}

one_method-IsNameIndex :
    IsNameIndex
      (λ (m : MethodDescriptor). m.name)
      one_method.methods
      one_method.method_indices_by_name
one_method-IsNameIndex = record {
  sorted = record {
    named =
        below_one
          (λ i.
            (name : List ℕ) × (name_through (λ m. m.name) one_method.methods
                one_method.method_indices_by_name i
              ≡ some name))
          (b'm' ∷ [], refl);
    ascending = λ i j a b h k. absurd (omega arith);
  };
  complete =
      below_one (λ j. (i : ℕ) × (i < 1) × (get_elem? one_method.method_indices_by_name i ≡ some j))
        (0, omega arith, refl);
}

get_method_by_name-Picks_example :
    Returns
      (service_descriptor_get_method_by_name one_method (b'x' ∷ []))
      (Picks (λ m. m.name ≡ b'x' ∷ []) one_method.methods)
get_method_by_name-Picks_example =
    get_method_by_name-Picks one_method (b'x' ∷ []) one_method-IsNameIndex
