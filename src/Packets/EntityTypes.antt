-- ===== src/Packets/EntityTypes.antt =====
-- go/internal/mcproto/entitytypes.go: `EntityTypeID`, the numbers of the entity kinds. Each key of the
-- source begins with `minecraft:`, which stands apart here.
use Prim.Native.Char.{code}
use Prim.Native.String.{String}
use mcbenchmark.Prelude.{ℕ, List, [], ◌∷◌, ◌++◌, Option, none, some, bytes_eq, if◌then◌else◌}
use mcbenchmark.Prelude.Int.{ℤ, pos}

-- The bytes of an ASCII text.
abbrev pub text_bytes : String → List ℕ
text_bytes String.[] = []
text_bytes (String.◌∷◌ c s) = code c ∷ text_bytes s

abbrev namespace_prefix : List ℕ
namespace_prefix = text_bytes "minecraft:"

abbrev kinds_from_acacia_boat : List (String × ℤ)
kinds_from_acacia_boat =
    ("acacia_boat", pos 0)
    ∷ ("acacia_chest_boat", pos 1)
    ∷ ("allay", pos 2)
    ∷ ("area_effect_cloud", pos 3)
    ∷ ("armadillo", pos 4)
    ∷ ("armor_stand", pos 5)
    ∷ ("arrow", pos 6)
    ∷ ("axolotl", pos 7)
    ∷ ("bamboo_chest_raft", pos 8)
    ∷ ("bamboo_raft", pos 9)
    ∷ ("bat", pos 10)
    ∷ ("bee", pos 11)
    ∷ ("birch_boat", pos 12)
    ∷ ("birch_chest_boat", pos 13)
    ∷ ("blaze", pos 14)
    ∷ ("block_display", pos 15)
    ∷ ("bogged", pos 16)
    ∷ ("breeze", pos 17)
    ∷ ("breeze_wind_charge", pos 18)
    ∷ ("camel", pos 19)
    ∷ ("camel_husk", pos 20)
    ∷ ("cat", pos 21)
    ∷ ("cave_spider", pos 22)
    ∷ ("cherry_boat", pos 23)
    ∷ ("cherry_chest_boat", pos 24)
    ∷ ("chest_minecart", pos 25)
    ∷ ("chicken", pos 26)
    ∷ ("cod", pos 27)
    ∷ ("copper_golem", pos 28)
    ∷ ("command_block_minecart", pos 29)
    ∷ ("cow", pos 30)
    ∷ ("creaking", pos 31)
    ∷ ("creeper", pos 32)
    ∷ ("dark_oak_boat", pos 33)
    ∷ ("dark_oak_chest_boat", pos 34)
    ∷ ("dolphin", pos 35)
    ∷ ("donkey", pos 36)
    ∷ ("dragon_fireball", pos 37)
    ∷ ("drowned", pos 38)
    ∷ ("egg", pos 39)
    ∷ []

abbrev kinds_from_elder_guardian : List (String × ℤ)
kinds_from_elder_guardian =
    ("elder_guardian", pos 40)
    ∷ ("enderman", pos 41)
    ∷ ("endermite", pos 42)
    ∷ ("ender_dragon", pos 43)
    ∷ ("ender_pearl", pos 44)
    ∷ ("end_crystal", pos 45)
    ∷ ("evoker", pos 46)
    ∷ ("evoker_fangs", pos 47)
    ∷ ("experience_bottle", pos 48)
    ∷ ("experience_orb", pos 49)
    ∷ ("eye_of_ender", pos 50)
    ∷ ("falling_block", pos 51)
    ∷ ("fireball", pos 52)
    ∷ ("firework_rocket", pos 53)
    ∷ ("fox", pos 54)
    ∷ ("frog", pos 55)
    ∷ ("furnace_minecart", pos 56)
    ∷ ("ghast", pos 57)
    ∷ ("happy_ghast", pos 58)
    ∷ ("giant", pos 59)
    ∷ ("glow_item_frame", pos 60)
    ∷ ("glow_squid", pos 61)
    ∷ ("goat", pos 62)
    ∷ ("guardian", pos 63)
    ∷ ("hoglin", pos 64)
    ∷ ("hopper_minecart", pos 65)
    ∷ ("horse", pos 66)
    ∷ ("husk", pos 67)
    ∷ ("illusioner", pos 68)
    ∷ ("interaction", pos 69)
    ∷ ("iron_golem", pos 70)
    ∷ ("item", pos 71)
    ∷ ("item_display", pos 72)
    ∷ ("item_frame", pos 73)
    ∷ ("jungle_boat", pos 74)
    ∷ ("jungle_chest_boat", pos 75)
    ∷ ("leash_knot", pos 76)
    ∷ ("lightning_bolt", pos 77)
    ∷ ("llama", pos 78)
    ∷ ("llama_spit", pos 79)
    ∷ []

abbrev kinds_from_magma_cube : List (String × ℤ)
kinds_from_magma_cube =
    ("magma_cube", pos 80)
    ∷ ("mangrove_boat", pos 81)
    ∷ ("mangrove_chest_boat", pos 82)
    ∷ ("mannequin", pos 83)
    ∷ ("marker", pos 84)
    ∷ ("minecart", pos 85)
    ∷ ("mooshroom", pos 86)
    ∷ ("mule", pos 87)
    ∷ ("nautilus", pos 88)
    ∷ ("oak_boat", pos 89)
    ∷ ("oak_chest_boat", pos 90)
    ∷ ("ocelot", pos 91)
    ∷ ("ominous_item_spawner", pos 92)
    ∷ ("painting", pos 93)
    ∷ ("pale_oak_boat", pos 94)
    ∷ ("pale_oak_chest_boat", pos 95)
    ∷ ("panda", pos 96)
    ∷ ("parched", pos 97)
    ∷ ("parrot", pos 98)
    ∷ ("phantom", pos 99)
    ∷ ("pig", pos 100)
    ∷ ("piglin", pos 101)
    ∷ ("piglin_brute", pos 102)
    ∷ ("pillager", pos 103)
    ∷ ("polar_bear", pos 104)
    ∷ ("splash_potion", pos 105)
    ∷ ("lingering_potion", pos 106)
    ∷ ("pufferfish", pos 107)
    ∷ ("rabbit", pos 108)
    ∷ ("ravager", pos 109)
    ∷ ("salmon", pos 110)
    ∷ ("sheep", pos 111)
    ∷ ("shulker", pos 112)
    ∷ ("shulker_bullet", pos 113)
    ∷ ("silverfish", pos 114)
    ∷ ("skeleton", pos 115)
    ∷ ("skeleton_horse", pos 116)
    ∷ ("slime", pos 117)
    ∷ ("small_fireball", pos 118)
    ∷ ("sniffer", pos 119)
    ∷ []

abbrev kinds_from_snowball : List (String × ℤ)
kinds_from_snowball =
    ("snowball", pos 120)
    ∷ ("snow_golem", pos 121)
    ∷ ("spawner_minecart", pos 122)
    ∷ ("spectral_arrow", pos 123)
    ∷ ("spider", pos 124)
    ∷ ("spruce_boat", pos 125)
    ∷ ("spruce_chest_boat", pos 126)
    ∷ ("squid", pos 127)
    ∷ ("stray", pos 128)
    ∷ ("strider", pos 129)
    ∷ ("tadpole", pos 130)
    ∷ ("text_display", pos 131)
    ∷ ("tnt", pos 132)
    ∷ ("tnt_minecart", pos 133)
    ∷ ("trader_llama", pos 134)
    ∷ ("trident", pos 135)
    ∷ ("tropical_fish", pos 136)
    ∷ ("turtle", pos 137)
    ∷ ("vex", pos 138)
    ∷ ("villager", pos 139)
    ∷ ("vindicator", pos 140)
    ∷ ("wandering_trader", pos 141)
    ∷ ("warden", pos 142)
    ∷ ("wind_charge", pos 143)
    ∷ ("witch", pos 144)
    ∷ ("wither", pos 145)
    ∷ ("wither_skeleton", pos 146)
    ∷ ("wither_skull", pos 147)
    ∷ ("wolf", pos 148)
    ∷ ("zoglin", pos 149)
    ∷ ("zombie", pos 150)
    ∷ ("zombie_horse", pos 151)
    ∷ ("zombie_nautilus", pos 152)
    ∷ ("zombie_villager", pos 153)
    ∷ ("zombified_piglin", pos 154)
    ∷ ("player", pos 155)
    ∷ ("fishing_bobber", pos 156)
    ∷ []

unfoldable pub type_in : List (String × ℤ) → List ℕ → Option ℤ
unfolding bytes_eq
type_in [] key = none
type_in ((name, id) ∷ rows) key =
    if bytes_eq (namespace_prefix ++ text_bytes name) key then some id else type_in rows key

-- `EntityTypeID[key]`
unfoldable pub entity_type_id : List ℕ → Option ℤ
unfolding type_in
entity_type_id key =
    type_in
      (kinds_from_acacia_boat
        ++ (kinds_from_elder_guardian ++ (kinds_from_magma_cube ++ (kinds_from_snowball))))
      key
