-- ===== src/Config/Animals.antt =====
-- config_magic_dns.rs: the names from which a peer without an alias gets one.
use nostr_vpn.Prelude.{List, [], ◌∷◌}
use nostr_vpn.Prelude.Text.{Text, codes}

-- HASHTREE_ANIMAL_ALIASES
abbrev pub hashtree_animal_aliases : List Text
hashtree_animal_aliases =
    codes "aardvark"
    ∷ codes "aardwolf"
    ∷ codes "albatross"
    ∷ codes "alligator"
    ∷ codes "alpaca"
    ∷ codes "anaconda"
    ∷ codes "angelfish"
    ∷ codes "ant"
    ∷ codes "anteater"
    ∷ codes "antelope"
    ∷ codes "ape"
    ∷ codes "armadillo"
    ∷ codes "baboon"
    ∷ codes "badger"
    ∷ codes "barracuda"
    ∷ codes "bat"
    ∷ codes "bear"
    ∷ codes "beaver"
    ∷ codes "bee"
    ∷ codes "beetle"
    ∷ codes "bison"
    ∷ codes "blackbird"
    ∷ codes "boa"
    ∷ codes "boar"
    ∷ codes "bobcat"
    ∷ codes "bonobo"
    ∷ codes "butterfly"
    ∷ codes "buzzard"
    ∷ codes "camel"
    ∷ codes "capybara"
    ∷ codes "cardinal"
    ∷ codes "caribou"
    ∷ codes "carp"
    ∷ codes "cat"
    ∷ codes "catfish"
    ∷ codes "centipede"
    ∷ codes "chameleon"
    ∷ codes "cheetah"
    ∷ codes "chicken"
    ∷ codes "chimpanzee"
    ∷ codes "chinchilla"
    ∷ codes "chipmunk"
    ∷ codes "clam"
    ∷ codes "clownfish"
    ∷ codes "cobra"
    ∷ codes "cockroach"
    ∷ codes "condor"
    ∷ codes "cougar"
    ∷ codes "cow"
    ∷ codes "coyote"
    ∷ codes "crab"
    ∷ codes "crane"
    ∷ codes "crayfish"
    ∷ codes "cricket"
    ∷ codes "crocodile"
    ∷ codes "crow"
    ∷ codes "cuckoo"
    ∷ codes "deer"
    ∷ codes "dingo"
    ∷ codes "dolphin"
    ∷ codes "donkey"
    ∷ codes "dove"
    ∷ codes "dragonfly"
    ∷ codes "duck"
    ∷ codes "eagle"
    ∷ codes "earthworm"
    ∷ codes "echidna"
    ∷ codes "eel"
    ∷ codes "egret"
    ∷ codes "elephant"
    ∷ codes "elk"
    ∷ codes "emu"
    ∷ codes "falcon"
    ∷ codes "ferret"
    ∷ codes "finch"
    ∷ codes "firefly"
    ∷ codes "fish"
    ∷ codes "flamingo"
    ∷ codes "fox"
    ∷ codes "frog"
    ∷ codes "gazelle"
    ∷ codes "gecko"
    ∷ codes "gerbil"
    ∷ codes "giraffe"
    ∷ codes "goat"
    ∷ codes "goldfish"
    ∷ codes "goose"
    ∷ codes "gorilla"
    ∷ codes "grasshopper"
    ∷ codes "grouse"
    ∷ codes "guanaco"
    ∷ codes "gull"
    ∷ codes "hamster"
    ∷ codes "hare"
    ∷ codes "hawk"
    ∷ codes "hedgehog"
    ∷ codes "heron"
    ∷ codes "hippopotamus"
    ∷ codes "hornet"
    ∷ codes "horse"
    ∷ codes "hummingbird"
    ∷ codes "hyena"
    ∷ codes "ibis"
    ∷ codes "iguana"
    ∷ codes "impala"
    ∷ codes "jackal"
    ∷ codes "jaguar"
    ∷ codes "jellyfish"
    ∷ codes "kangaroo"
    ∷ codes "koala"
    ∷ codes "koi"
    ∷ codes "ladybug"
    ∷ codes "lemur"
    ∷ codes "leopard"
    ∷ codes "lion"
    ∷ codes "lizard"
    ∷ codes "llama"
    ∷ codes "lobster"
    ∷ codes "lynx"
    ∷ codes "macaw"
    ∷ codes "magpie"
    ∷ codes "manatee"
    ∷ codes "marten"
    ∷ codes "meerkat"
    ∷ codes "mink"
    ∷ codes "mole"
    ∷ codes "mongoose"
    ∷ codes "monkey"
    ∷ codes "moose"
    ∷ codes "mosquito"
    ∷ codes "moth"
    ∷ codes "mouse"
    ∷ codes "mule"
    ∷ codes "narwhal"
    ∷ codes "newt"
    ∷ codes "nightingale"
    ∷ codes "octopus"
    ∷ codes "opossum"
    ∷ codes "orangutan"
    ∷ codes "orca"
    ∷ codes "ostrich"
    ∷ codes "otter"
    ∷ codes "owl"
    ∷ codes "oyster"
    ∷ codes "panda"
    ∷ codes "panther"
    ∷ codes "parrot"
    ∷ codes "peacock"
    ∷ codes "pelican"
    ∷ codes "penguin"
    ∷ codes "pheasant"
    ∷ codes "pig"
    ∷ codes "pigeon"
    ∷ codes "piranha"
    ∷ codes "platypus"
    ∷ codes "porcupine"
    ∷ codes "porpoise"
    ∷ codes "puffin"
    ∷ codes "python"
    ∷ codes "quail"
    ∷ codes "rabbit"
    ∷ codes "raccoon"
    ∷ codes "ram"
    ∷ codes "rat"
    ∷ codes "raven"
    ∷ codes "reindeer"
    ∷ codes "rhino"
    ∷ codes "salamander"
    ∷ codes "salmon"
    ∷ codes "scorpion"
    ∷ codes "seahorse"
    ∷ codes "seal"
    ∷ codes "shark"
    ∷ codes "sheep"
    ∷ codes "skunk"
    ∷ codes "sloth"
    ∷ codes "snail"
    ∷ codes "snake"
    ∷ codes "sparrow"
    ∷ codes "spider"
    ∷ codes "squid"
    ∷ codes "squirrel"
    ∷ codes "starfish"
    ∷ codes "stork"
    ∷ codes "swan"
    ∷ codes "tapir"
    ∷ codes "termite"
    ∷ codes "tiger"
    ∷ codes "toad"
    ∷ codes "toucan"
    ∷ codes "trout"
    ∷ codes "turkey"
    ∷ codes "turtle"
    ∷ codes "viper"
    ∷ codes "vulture"
    ∷ codes "walrus"
    ∷ codes "wasp"
    ∷ codes "weasel"
    ∷ codes "whale"
    ∷ codes "wildcat"
    ∷ codes "wolf"
    ∷ codes "wombat"
    ∷ codes "woodpecker"
    ∷ codes "yak"
    ∷ codes "zebra"
    ∷ []
